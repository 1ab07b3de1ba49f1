-- ===== src/Collaborations/Table/Saving.antt =====
-- What saving a row of the table Collaboration, by an answer or by PATCH, does to the table.
use mapapi.Prelude.{
  ℕ, ◌+◌, ◌≤◌, ◌≡◌, refl, false, not, ◌&&◌, some, arith, inl, inr, Bool-cases, Option-cases,
  if◌then◌else◌, ◌==◌, subst, sym, ==→eq, ◌⊎◌, given,
}
use mapapi.Orm.{find, exists, count, count-only, find-sat, find-first}
use mapapi.Models.{
  Incident, Collaboration, Db, CollabStatus, is_pair, save_incident, get_incident,
  get_collaboration,
}
use mapapi.Http.{Request}
use mapapi.Views.{Outcome}
use mapapi.Views.Keeps.{holds-as_user}
use mapapi.Signals.{save_collaboration}
use mapapi.Collaborations.{
  collaboration_error, store_accepted, open_incident, accepted_collaboration, with_collaboration,
  writable,
}
use mapapi.Collaborations.Edits.{
  CollaborationPatch, body_of, edited_row, pair_taken, edit_found, edit_collaboration,
  with_writable,
}
use mapapi.Collaborations.Table.{IsTable, save-IsTable, save_same-IsTable}

own_key :
    (pk : ℕ) (db : Db) {c : Collaboration}
    → get_collaboration pk db ≡ some c
    → get_collaboration c.id db ≡ some c
own_key pk db {c} h =
    subst (λ k. get_collaboration k db ≡ some c)
      (sym (==→eq c.id pk (find-sat (λ x. x.id == pk) db.collaborations h))) h

-- What holds of the refusals and of the body holds of a view that loads a collaboration.
pub holds-with_collaboration :
    (pk : ℕ) (db : Db) (Q : Db → Type 0) (body : Collaboration → Incident → Outcome)
    → Q db
    → ((c : Collaboration) (i : Incident) → get_collaboration c.id db ≡ some c → Q (body c i).1)
    → Q (with_collaboration pk db body).1
holds-with_collaboration pk db Q body h step = elim (Option-cases (get_collaboration pk db)) [
  | inl e ↦ rw (e, with_collaboration) h
  | inr (c, e) ↦ elim (Option-cases (get_incident c.incident db)) [
    | inl e' ↦ rw (e, e', with_collaboration) h
    | inr (i, e') ↦ rw (e, e', with_collaboration) (step c i (own_key pk db e))
  ]
]

pub save_answer-IsTable :
    (status : CollabStatus) (c : Collaboration) (db : Db)
    → get_collaboration c.id db ≡ some c
    → IsTable db
    → IsTable (save_collaboration c.status (record c { status = status }) db)
save_answer-IsTable status c db mine t =
    save_same-IsTable c.status c (record c { status = status }) db mine refl refl t

pub store_accepted-IsTable :
    (c : Collaboration) (i : Incident) (db : Db)
    → get_collaboration c.id db ≡ some c
    → IsTable db
    → IsTable (store_accepted c i db)
unfolding store_accepted open_incident save_incident
store_accepted-IsTable c i db mine t =
    let saved : IsTable (save_collaboration c.status (accepted_collaboration c) db) =
      save_answer-IsTable CollabStatus.accepted c db mine t in
    ((λ k v. ground (arith, saved.0 k v)), (λ k. ground (arith, saved.1 k)))

edit_found-cases :
    (p : CollaborationPatch) (c : Collaboration) (i : Incident) (rq : Request) (db : Db)
    → ((edit_found p c i rq db).1 ≡ db)
      ⊎ ((pair_taken i.id c db ≡ false)
          × ((edit_found p c i rq db).1 ≡ save_collaboration c.status (edited_row p c) db))
unfolding edit_found
edit_found-cases p c i rq db = elim (Option-cases (collaboration_error (body_of p) i rq)) [
  | inr (x, e) ↦ inl (ground (arith, e))
  | inl e ↦ elim (Bool-cases (pair_taken i.id c db)) [
    | inl taken ↦ inl (ground (arith, e, taken))
    | inr free ↦ inr (free, ground (arith, e, free))
  ]
]

-- The edited row has room in the table, if no other row of its pair is there.
edited-room :
    (y c : Collaboration) (db : Db) (k v : ℕ)
    → get_collaboration c.id db ≡ some c
    → exists (λ x. not (x.id == c.id) && is_pair y.incident y.user x) db.collaborations ≡ false
    → IsTable db
    → count (is_pair k v) db.collaborations + (if is_pair k v y then 1 else 0)
      ≤ 1 + (if is_pair k v c then 1 else 0)
edited-room y c db k v mine free (one, keys) = elim (Bool-cases (is_pair k v y)) [
  | inr f ↦ ground (arith, f, one k v)
  | inl t ↦
      let same_incident : y.incident ≡ k = ground arith in
      let same_user : y.user ≡ v = ground arith in
      let only : exists (λ x. not (x.id == c.id) && is_pair k v x) db.collaborations ≡ false =
        subst (λ j. exists (λ x. not (x.id == c.id) && is_pair j v x) db.collaborations ≡ false)
          same_incident
          (subst
            (λ w.
              exists (λ x. not (x.id == c.id) && is_pair y.incident w x) db.collaborations ≡ false)
            same_user free) in
      ground (
        arith,
        t,
        count-only (is_pair k v) (λ x. x.id == c.id) db.collaborations mine (keys c.id) only,
      )
]

edit_found-IsTable :
    (p : CollaborationPatch) (c : Collaboration) (i : Incident) (rq : Request) (db : Db)
    → get_collaboration c.id db ≡ some c
    → (edited_row p c).incident ≡ i.id
    → IsTable db
    → IsTable (edit_found p c i rq db).1
edit_found-IsTable p c i rq db mine there t = elim (edit_found-cases p c i rq db) [
  | inl e ↦ subst IsTable (sym e) t
  | inr (free, e) ↦
      let alone : exists (λ x. not (x.id == c.id) && is_pair (edited_row p c).incident c.user x)
            db.collaborations
          ≡ false =
        rw there free in
      subst IsTable (sym e) (
        save-IsTable c.status c (edited_row p c) db mine
          (λ k v. edited-room (edited_row p c) c db k v mine alone t) t)
]

pub edit-IsTable :
    (p : CollaborationPatch) (rq : Request) (db : Db) (c : Collaboration)
    → get_collaboration c.id db ≡ some c
    → IsTable db
    → IsTable (edit_collaboration p rq db c).1
unfolding edit_collaboration
edit-IsTable p rq db c mine t =
    elim (Option-cases (get_incident (given p.incident c.incident) db)) [
      | inl e ↦ rw (e, edit_collaboration) t
      | inr (i, e) ↦
          let here : given p.incident c.incident ≡ i.id = sym (
            ==→eq i.id (given p.incident c.incident)
              (find-sat (λ x. x.id == given p.incident c.incident) db.incidents e)) in
          rw (e, edit_collaboration) (edit_found-IsTable p c i rq db mine here t)
    ]

-- What holds of the refusals and of the body holds of a view that loads a row to write.
pub holds-with_writable :
    (pk : ℕ) (rq : Request) (db : Db) (body : Collaboration → Outcome)
    → IsTable db
    → ((c : Collaboration) → get_collaboration c.id db ≡ some c → IsTable (body c).1)
    → IsTable (with_writable pk rq db body).1
holds-with_writable pk rq db body t step =
    holds-as_user _ rq db (λ x. IsTable x.1) _ (λ _. t)
      λ u. elim (Option-cases (find (λ c. c.id == pk && writable u db c) db.collaborations)) [
        | inl e ↦ rw e t
        | inr (c, e) ↦ rw e (
            step c (
              own_key pk db
                (find-first (λ x. x.id == pk) (writable u db) db.collaborations e (t.1 pk))))
      ]
