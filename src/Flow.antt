-- ===== src/Flow.antt =====
-- The life cycle of an incident, as the comment above the resolution views of views/incident.py
-- draws it, with the edges of the older views and of the jobs added.
pub mod Requests
pub mod Taking
pub mod Run
pub mod Sound
pub mod Soundness
pub mod Tacit
pub mod Freeze
use mapapi.Prelude.{
  ℕ, ◌≡◌, Bool, true, false, Option, none, some, List, arith, if◌then◌else◌, ◌==◌, inl, inr,
  Bool-cases, refl, subst, sym,
}
use mapapi.Orm.{find}
use mapapi.Models.{
  Incident, Db, Etat, declared, resolved, in_progress, taken, resolution_prepared, in_validation,
  resolved_definitive, get_incident, get-save, save_incident, settle,
}

-- `flows a b`: a single step may lead from a to b, or the two are one. A closed incident stays
-- closed; what is resolved for good can only be closed; nothing becomes in_progress.
abbrev pub flows : Etat → Etat → Bool
flows _ resolved = true
flows declared declared = true
flows declared taken = true
flows taken taken = true
flows taken declared = true
flows taken resolution_prepared = true
flows taken in_validation = true
flows resolution_prepared resolution_prepared = true
flows resolution_prepared taken = true
flows resolution_prepared in_validation = true
flows in_validation in_validation = true
flows in_validation taken = true
flows in_validation resolved_definitive = true
flows resolved_definitive resolved_definitive = true
flows in_progress in_progress = true
flows _ _ = false

-- the state of the incident with a key
abbrev pub etat_in : ℕ → List Incident → Option Etat
etat_in k is = elim (find (λ j. j.id == k) is) [ none ↦ none | some i ↦ some i.etat ]

abbrev pub etat_of : ℕ → Db → Option Etat
etat_of k db = etat_in k db.incidents

-- `flows` on what two databases have under one key; an incident neither appears nor goes away
abbrev pub follows : Option Etat → Option Etat → Bool
follows none none = true
follows (some a) (some b) = flows a b
follows _ _ = false

pub follows_refl : (o : Option Etat) → follows o o ≡ true
follows_refl none = refl
follows_refl (some declared) = refl
follows_refl (some resolved) = refl
follows_refl (some in_progress) = refl
follows_refl (some taken) = refl
follows_refl (some resolution_prepared) = refl
follows_refl (some in_validation) = refl
follows_refl (some resolved_definitive) = refl

pub etat-save :
    (i : Incident) (k : ℕ) (db : Db)
    → etat_of k (save_incident i db) ≡ (
        if i.id == k
        then elim (etat_of k db) [ none ↦ none | some _ ↦ some i.etat ]
        else etat_of k db)
unfolding settle
etat-save i k db = ground (arith, get-save i k db)

-- A view that saves the row it has loaded follows the table, if the new state does.
pub follows-save :
    (i i' : Incident) (k : ℕ) (db : Db)
    → get_incident i.id db ≡ some i
    → i'.id ≡ i.id
    → flows i.etat i'.etat ≡ true
    → follows (etat_of k db) (etat_of k (save_incident i' db)) ≡ true
follows-save i i' k db here same step = elim (Bool-cases (i'.id == k)) [
  | inl e ↦
      let own : etat_of k db ≡ some i.etat = ground (arith, here, e) in
      let after : etat_of k (save_incident i' db) ≡ some i'.etat =
        ground (arith, etat-save i' k db, own, e) in
      subst (λ o. follows o (etat_of k (save_incident i' db)) ≡ true) (sym own)
        (subst (λ o. follows (some i.etat) o ≡ true) (sym after) step)
  | inr e ↦
      let after : etat_of k (save_incident i' db) ≡ etat_of k db =
        ground (arith, etat-save i' k db, e) in
      subst (λ o. follows (etat_of k db) o ≡ true) (sym after) (follows_refl (etat_of k db))
]
