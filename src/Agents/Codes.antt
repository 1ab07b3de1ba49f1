-- ===== src/Agents/Codes.antt =====
-- The search for an agent code that nobody has.
use mapapi.Prelude.{
  ℕ, ◌<◌, ◌≤◌, ◌≡◌, refl, Bool, true, false, not, none, some, List, [], ◌∷◌, arith, inl, inr, ◌==◌,
  Option, refers, Bool-cases, sym, ◌∙◌, subst,
}
use mapapi.Orm.{exists, filter, length}
use mapapi.Models.{User}
use mapapi.Agents.{generate_agent_code}

-- the code is among those drawn
abbrev is_drawn : ℕ → List ℕ → Bool
is_drawn c cs = exists (λ d. d == c) cs

-- no code is drawn twice
abbrev DistinctCodes : List ℕ → Type 0
DistinctCodes [] = Unit
DistinctCodes (c ∷ cs) = (is_drawn c cs ≡ false) × DistinctCodes cs

abbrev pub has_code : ℕ → User → Bool
has_code c u = refers u.agent_code c

refers-other : (x : Option ℕ) (c d : ℕ) → (d == c) ≡ false → refers x c ≡ true → refers x d ≡ false
refers-other none c d n h = refl
refers-other (some y) c d n h = ground arith

exists-without :
    (c d : ℕ) (us : List User)
    → (d == c) ≡ false
    → exists (has_code d) (filter (λ u. not (has_code c u)) us) ≡ exists (has_code d) us
exists-without c d [] n = refl
exists-without c d (u ∷ us) n = elim (Bool-cases (has_code c u)) [
  | inl t ↦ ground (arith, t, refers-other u.agent_code c d n t, exists-without c d us n)
  | inr f ↦ ground (arith, f, exists-without c d us n)
]

-- Users with a code that is not drawn do not matter.
generate-without :
    (c : ℕ) (cs : List ℕ) (us : List User)
    → is_drawn c cs ≡ false
    → generate_agent_code cs (filter (λ u. not (has_code c u)) us) ≡ generate_agent_code cs us
unfolding generate_agent_code
generate-without c [] us n = refl
generate-without c (d ∷ cs) us n =
    ground (arith, n, generate-without c cs us, exists-without c d us)

length-filter : (p : User → Bool) (us : List User) → length (filter p us) ≤ length us
length-filter p [] = omega arith
length-filter p (u ∷ us) = ground (arith, length-filter p us)

length-without :
    (c : ℕ) (us : List User)
    → exists (has_code c) us ≡ true
    → length (filter (λ u. not (has_code c u)) us) < length us
length-without c [] h = cc
length-without c (u ∷ us) h =
    ground (arith, h, length-without c us, length-filter (λ x. not (has_code c x)) us)

-- What the search ends with is a code that nobody has.
generate-unused :
    (cs : List ℕ) (us : List User) {c : ℕ}
    → generate_agent_code cs us ≡ some c
    → exists (has_code c) us ≡ false
unfolding generate_agent_code
generate-unused [] us e = cc
generate-unused (d ∷ cs) us {c} e = elim (Bool-cases (exists (has_code d) us)) [
  | inl t ↦ generate-unused cs us (rw t at e)
  | inr f ↦ subst (λ x. exists (has_code x) us ≡ false) (ground (arith, e, f)) f
]

abbrev Found : List ℕ → List User → Type 0
Found cs us = (c : ℕ) × (generate_agent_code cs us ≡ some c) × (exists (has_code c) us ≡ false)

-- Among more codes than there are users, all different, the search finds one that nobody has.
pub generate_agent_code_ends :
    (cs : List ℕ) (us : List User) → DistinctCodes cs → length us < length cs → Found cs us
unfolding generate_agent_code
generate_agent_code_ends [] us d h = absurd (omega arith)
generate_agent_code_ends (c ∷ cs) us d h = elim (Bool-cases (exists (has_code c) us)) [
  | inl t ↦
      let (x, e, n) =
        generate_agent_code_ends cs (filter (λ u. not (has_code c u)) us) d.1
          (ground (arith, h, length-without c us t)) in
      let found : generate_agent_code cs us ≡ some x = sym (generate-without c cs us d.0) ∙ e in
      (x, rw t found, generate-unused cs us found)
  | inr f ↦ (c, rw f refl, f)
]
