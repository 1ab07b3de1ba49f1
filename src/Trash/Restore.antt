-- ===== src/Trash/Restore.antt =====
-- An incident that is put in the trash and taken out again.
use mapapi.Prelude.{
  ℕ, ◌≡◌, refl, true, false, some, [], ◌∷◌, arith, inl, inr, Bool-cases, if◌then◌else◌, ◌==◌, ◌∙◌,
  ==→eq, ==_self, subst,
}
use mapapi.Orm.{find-sat, find-both}
use mapapi.Models.{User, Incident, Db, get_incident, save_incident, settle, get-save, is_final}
use mapapi.Http.{Request, ok}
use mapapi.Roles.{is_super_admin}
use mapapi.Permissions.{permitted, has_permission}
use mapapi.Trash.{
  trash_each, trash_incident, bulk_delete, get_trashed, restored_row, restore_incident,
}
use mapapi.Trash.Bulk.{trashed, get-trash}

-- the row that deletion and restoration leave
abbrev pub back : Request → Incident → Incident
back rq i = record (settle i) { deleted_at = some rq.now }

settle-trashed :
    (rq : Request) (i : Incident)
    → i.is_deleted ≡ false
    → settle (restored_row (trashed rq i)) ≡ back rq i
unfolding settle
settle-trashed rq i h = elim (Bool-cases (is_final i.etat)) [
  | inl e ↦ rw (h, e) (rw e refl)
  | inr e ↦ rw (h, e) (rw e refl)
]

in_trash : (rq : Request) (i : Incident) → i.is_deleted ≡ false → (trashed rq i).is_deleted ≡ true
unfolding settle
in_trash rq i h = elim (Bool-cases (is_final i.etat)) [
  | inl e ↦ rw (h, e) refl
  | inr e ↦ rw (h, e) refl
]

get-restore :
    (k j : ℕ) (t : Incident) (rq : Request) (v : User) (db : Db)
    → rq.user ≡ some v
    → v.is_superuser ≡ true
    → get_incident k db ≡ some t
    → t.is_deleted ≡ true
    → get_incident j (restore_incident k rq db).1
      ≡ (if k == j then some (settle (restored_row t)) else get_incident j db)
unfolding restore_incident permitted has_permission
get-restore k j t rq v db me super here gone =
    let found : get_trashed k db ≡ some t =
      find-both (λ x. x.id == k) (λ x. x.is_deleted) db.incidents here gone in
    let own : (t.id == k) ≡ true = find-sat (λ x. x.id == k) db.incidents here in
    let saved : restore_incident k rq db ≡ (ok, save_incident (restored_row t) db) =
      rw (me, super, found) refl in
    rw saved (
      get-save (restored_row t) j db ∙ elim (Bool-cases (k == j)) [
        | inl e ↦
            let there : get_incident j db ≡ some t =
              subst (λ x. get_incident x db ≡ some t) (==→eq k j e) here in
            ground (arith, own, e, there)
        | inr e ↦ ground (arith, own, e)
      ])

bulk_delete_one :
    (k : ℕ) (i : Incident) (rq : Request) (u : User) (db : Db)
    → rq.user ≡ some u
    → is_super_admin (some u) ≡ true
    → get_incident k db ≡ some i
    → (bulk_delete (k ∷ []) rq db).0 ≡ (ok, trash_incident rq i db)
unfolding bulk_delete trash_each
bulk_delete_one k i rq u db me super here = ground (arith, me, super, here)

-- When a super admin deletes an incident that is not in the trash and one restores it, the incident
-- is back as a save leaves it, apart from the date of the deletion, and every other one is as it was.
pub restore-bulk_delete :
    (k j : ℕ) (i : Incident) (u v : User) (rq rq' : Request) (db : Db)
    → rq.user ≡ some u
    → is_super_admin (some u) ≡ true
    → rq'.user ≡ some v
    → v.is_superuser ≡ true
    → get_incident k db ≡ some i
    → i.is_deleted ≡ false
    → get_incident j (restore_incident k rq' (bulk_delete (k ∷ []) rq db).0.1).1
      ≡ (if k == j then some (back rq i) else get_incident j db)
restore-bulk_delete k j i u v rq rq' db me super me' super' here kept =
    let deleted = bulk_delete_one k i rq u db me super here in
    let there : get_incident k (trash_incident rq i db) ≡ some (trashed rq i) =
      get-trash rq i k k db here ∙ rw (==_self k) refl in
    rw deleted (
      get-restore k j (trashed rq i) rq' v (trash_incident rq i db) me' super' there
        (in_trash rq i kept)
      ∙ rw (settle-trashed rq i kept) (elim (Bool-cases (k == j)) [
        | inl e ↦ rw e refl
        | inr e ↦ rw e (get-trash rq i k j db here ∙ rw e refl)
      ]))
