-- ===== src/Trash/Bulk.antt =====
-- The bulk views: what they do to each incident, whatever the list.
use mapapi.Prelude.{
  ℕ, ◌≡◌, refl, Bool, true, false, Option, none, some, List, [], ◌∷◌, arith, inl, inr, Bool-cases,
  Option-cases, if◌then◌else◌, ◌==◌, subst, ==→eq,
}
use mapapi.Orm.{exists, find-sat}
use mapapi.Models.{User, Incident, Db, get_incident, settle, get-save}
use mapapi.Http.{Request}
use mapapi.Roles.{is_super_admin}
use mapapi.Trash.{trash_each, trash_incident, trashed_row}

-- whether a key is listed
abbrev pub listed : ℕ → List ℕ → Bool
listed k ks = exists (λ j. j == k) ks

-- the row that being put in the trash leaves
abbrev pub trashed : Request → Incident → Incident
trashed rq i = if i.is_deleted then i else settle (trashed_row rq i)

pub get-trash :
    (rq : Request) (i : Incident) (j k : ℕ) (db : Db)
    → get_incident j db ≡ some i
    → get_incident k (trash_incident rq i db)
      ≡ (if j == k then some (trashed rq i) else get_incident k db)
unfolding trash_incident settle
get-trash rq i j k db h =
    let own : (i.id == j) ≡ true = find-sat (λ x. x.id == j) db.incidents h in
    elim (Bool-cases (j == k)) [
      | inl e ↦
          let here : get_incident k db ≡ some i =
            subst (λ x. get_incident x db ≡ some i) (==→eq j k e) h in
          ground (arith, get-save (trashed_row rq i) k db)
      | inr e ↦ ground (arith, get-save (trashed_row rq i) k db)
    ]

abbrev after : Request → List ℕ → ℕ → Option Incident → Option Incident
after rq ks k none = none
after rq ks k (some i) = some (if listed k ks then trashed rq i else i)

trash_each-step :
    (rq : Request) (i : Incident) (j k : ℕ) (ks : List ℕ) (db : Db)
    → get_incident j db ≡ some i
    → after rq ks k (get_incident k (trash_incident rq i db))
      ≡ after rq (j ∷ ks) k (get_incident k db)
unfolding settle
trash_each-step rq i j k ks db h = elim (Bool-cases (j == k)) [
  | inl e ↦
      let here : get_incident k db ≡ some i =
        subst (λ x. get_incident x db ≡ some i) (==→eq j k e) h in
      ground (arith, get-trash rq i j k db h)
  | inr e ↦ ground (arith, get-trash rq i j k db h)
]

trash_each-missing :
    (rq : Request) (j k : ℕ) (ks : List ℕ) (db : Db)
    → get_incident j db ≡ none
    → after rq ks k (get_incident k db) ≡ after rq (j ∷ ks) k (get_incident k db)
trash_each-missing rq j k ks db h = elim (Bool-cases (j == k)) [
  | inl e ↦
      let here : get_incident k db ≡ none = subst (λ x. get_incident x db ≡ none) (==→eq j k e) h in
      ground arith
  | inr e ↦ ground arith
]

-- For a super admin the bulk deletion puts exactly the listed incidents in the trash, each once,
-- however often it is listed: one that is there already keeps its date.
get-trash_each :
    (rq : Request) (u : User) (ks : List ℕ) (db : Db) (k : ℕ)
    → is_super_admin (some u) ≡ true
    → get_incident k (trash_each rq u ks db).1 ≡ elim (get_incident k db) [
      | none ↦ none
      | some i ↦ some (if listed k ks then trashed rq i else i)
    ]
unfolding trash_each
get-trash_each rq u [] db k s = ground arith
get-trash_each rq u (j ∷ ks) db k s = elim (Option-cases (get_incident j db)) [
  | inl e ↦ ground (arith, e, get-trash_each rq u ks db k s, trash_each-missing rq j k ks db e)
  | inr (i, e) ↦ ground (
    arith,
    e,
    get-trash_each rq u ks (trash_incident rq i db) k s,
    trash_each-step rq i j k ks db e,
  )
]

-- The bulk deletion of a user who is not a super admin changes nothing.
trash_each-refused :
    (rq : Request) (u : User) (ks : List ℕ) (db : Db)
    → is_super_admin (some u) ≡ false
    → (trash_each rq u ks db).1 ≡ db
unfolding trash_each
trash_each-refused rq u [] db s = refl
trash_each-refused rq u (j ∷ ks) db s = ground (arith, trash_each-refused rq u ks db s)
