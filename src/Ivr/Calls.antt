-- ===== src/Ivr/Calls.antt =====
-- What each webhook of a call leaves for the next one, and the caller as a user.
use mapapi.Prelude.{
  ℕ, String, ◌≡◌, refl, Bool, true, false, Option, none, some, List, [], ◌∷◌, arith, inl, inr, ◌==◌,
  refers, Option-cases, ==_self, ==→eq, ◌∙◌, subst,
}
use mapapi.Orm.{find, exists, update, count, find-append, count-append, count-not_found}
use mapapi.Models.{User, Db}
use mapapi.Members.{same_email}
use mapapi.Agents.{insert_user}
use mapapi.Ivr.{
  store_choice, choose, Step, zone_selection, category_selection, absent, unreadable, Ivr, IvrCall,
  Digits, number, get_call, webhook, select_zone, select_category, record_description, caller_of,
  choice, new_call, phone_user,
}

pub find-saved :
    (sid : ℕ) (c' : IvrCall) (cs : List IvrCall) {c : IvrCall}
    → c'.call_sid ≡ sid
    → find (λ x. x.call_sid == sid) cs ≡ some c
    → find (λ x. x.call_sid == sid) (update (λ x. x.call_sid == c'.call_sid) (λ _. c') cs) ≡ some c'
find-saved sid c' [] k e = cc
find-saved sid c' (x ∷ cs) {c} k e =
    ground (arith, k, e, ==_self sid, find-saved sid c' cs {c = c} k)

abbrev taken_address : ℕ → Db → Bool
taken_address address db = exists (λ u. same_email u.email (some address)) db.users

some-inj : {A : Type 0} {x y : A} → some x ≡ some y → x ≡ y
some-inj h = cc

caller_found :
    (fresh phone address : ℕ) (u : User) (db : Db)
    → find (λ x. refers x.phone phone) db.users ≡ some u
    → count (λ x. refers x.phone phone) db.users ≡ 1
    → caller_of fresh phone address db ≡ some (u.id, db)
unfolding caller_of
caller_found fresh phone address u db f n = ground (arith, f, n)

-- The rows of the users make the same caller out of the number again.
abbrev Stands : ℕ → ℕ → ℕ → ℕ × Db → Type 0
Stands again phone address x =
    (d : Db) → d.users ≡ x.1.users → caller_of again phone address d ≡ some (x.0, d)

stands :
    (again phone address : ℕ) (u : User) (db : Db)
    → find (λ x. refers x.phone phone) db.users ≡ some u
    → count (λ x. refers x.phone phone) db.users ≡ 1
    → Stands again phone address (u.id, db)
stands again phone address u db f n d m = caller_found again phone address u d (rw m f) (rw m n)

-- The user that was found or made for a number is found again, whatever else has changed.
pub caller_of_again :
    (fresh again phone address reporter : ℕ) (db db' d : Db)
    → caller_of fresh phone address db ≡ some (reporter, db')
    → d.users ≡ db'.users
    → caller_of again phone address d ≡ some (reporter, d)
unfolding caller_of
caller_of_again fresh again phone address reporter db db' d h m =
    elim (Option-cases (find (λ u. refers u.phone phone) db.users)) [
      | inl e ↦
          let new : User = phone_user fresh phone address in
          let free : taken_address address db ≡ false = ground (arith, e, h) in
          let same : some (fresh, insert_user new db) ≡ some (reporter, db') =
            ground (arith, e, free, h) in
          subst (Stands again phone address) (some-inj same)
            (stands again phone address new (insert_user new db)
              (find-append (λ u. refers u.phone phone) db.users (new ∷ [])
                ∙ rw (e, ==_self phone) refl)
              (count-append (λ u. refers u.phone phone) db.users (new ∷ [])
                ∙ rw (count-not_found (λ u. refers u.phone phone) db.users e, ==_self phone) refl))
            d m
      | inr (u, e) ↦
          let one : (count (λ u. refers u.phone phone) db.users == 1) ≡ true =
            ground (arith, e, h) in
          subst (Stands again phone address)
            (some-inj {x = (u.id, db)} {y = (reporter, db')} (ground (arith, e, one, h)))
            (stands again phone address u db e (==→eq _ 1 one)) d m
    ]

-- Finding or making the caller leaves the incidents alone.
pub caller-incidents :
    (fresh phone address : ℕ) (db : Db) (x : ℕ × Db)
    → caller_of fresh phone address db ≡ some x
    → x.1.incidents ≡ db.incidents
unfolding caller_of
caller-incidents fresh phone address db x h =
    elim (Option-cases (find (λ u. refers u.phone phone) db.users)) [
      | inl e ↦
          let free : taken_address address db ≡ false = ground (arith, e, h) in
          let same : some (fresh, insert_user (phone_user fresh phone address) db) ≡ some x =
            ground (arith, e, free, h) in
          subst (λ y. y.1.incidents ≡ db.incidents) (some-inj same) refl
      | inr (u, e) ↦
          let one : (count (λ u. refers u.phone phone) db.users == 1) ≡ true =
            ground (arith, e, h) in
          subst (λ y. y.1.incidents ≡ db.incidents)
            (some-inj {x = (u.id, db)} {y = x} (ground (arith, e, one, h))) refl
    ]

store_choice-db :
    (set : ℕ → IvrCall) (sid : ℕ) (step : Step) (o : Option ℕ) (s : Ivr)
    → (store_choice set sid step o s).db ≡ s.db
store_choice-db set sid step none s = refl
store_choice-db set sid step (some x) s = refl

choose-db :
    (set : ℕ → IvrCall) (sid : ℕ) (step : Step) (xs : List ℕ) (digits : Digits) (s : Ivr)
    → (choose set sid step xs digits s).1.db ≡ s.db
choose-db set sid step xs absent s = refl
choose-db set sid step xs unreadable s = refl
choose-db set sid step xs (number n) s = store_choice-db set sid step (choice n xs) s

pub select_category-db :
    (sid : ℕ) (digits : Digits) (s : Ivr) → (select_category sid digits s).1.db ≡ s.db
unfolding select_category
select_category-db sid digits s = elim (Option-cases (get_call sid s)) [
  | inl e ↦ rw (e, select_category) refl
  | inr (c, e) ↦
      rw (e, select_category)
        (choose-db (λ x. record c { zone_selected = some x }) sid zone_selection s.zones digits s)
]

pub record_description-db :
    (sid : ℕ) (digits : Digits) (s : Ivr) → (record_description sid digits s).1.db ≡ s.db
unfolding record_description
record_description-db sid digits s = elim (Option-cases (get_call sid s)) [
  | inl e ↦ rw (e, record_description) refl
  | inr (c, e) ↦
      rw (e, record_description)
        (choose-db (λ x. record c { category_selected = some x }) sid category_selection
          s.categories digits s)
]

pub after_webhook :
    (sid phone : ℕ) (status : String) (s : Ivr)
    → get_call sid s ≡ none
    → get_call sid (webhook sid phone status s) ≡ some (new_call sid phone status)
unfolding webhook
after_webhook sid phone status s h =
    rw (h, webhook)
      (find-append (λ c. c.call_sid == sid) s.calls (new_call sid phone status ∷ [])
        ∙ rw (h, ==_self sid) refl)

pub after_category :
    (sid n a : ℕ) (c : IvrCall) (s : Ivr)
    → get_call sid s ≡ some c
    → choice n s.zones ≡ some a
    → c.call_sid ≡ sid
    → get_call sid (select_category sid (number n) s).1 ≡ some (record c { zone_selected = some a })
unfolding select_category
after_category sid n a c s h e k =
    rw (h, select_category)
      (rw e (find-saved sid (record c { zone_selected = some a }) s.calls k h))

pub after_description :
    (sid n b : ℕ) (c : IvrCall) (s : Ivr)
    → get_call sid s ≡ some c
    → choice n s.categories ≡ some b
    → c.call_sid ≡ sid
    → get_call sid (record_description sid (number n) s).1
      ≡ some (record c { category_selected = some b })
unfolding record_description
after_description sid n b c s h e k =
    rw (h, record_description)
      (rw e (find-saved sid (record c { category_selected = some b }) s.calls k h))

pub after_menu :
    (sid : ℕ) (c : IvrCall) (s : Ivr)
    → get_call sid s ≡ some c
    → get_call sid (select_zone sid s) ≡ some c
unfolding select_zone
after_menu sid c s h = rw (h, select_zone) h

-- what only the last request of a call changes
abbrev SameRest : Ivr → Ivr → Type 0
SameRest s s' =
    (s'.zones ≡ s.zones)
    × (s'.categories ≡ s.categories)
    × (s'.reports ≡ s.reports)
    × (s'.db ≡ s.db)

pub webhook-SameRest :
    (sid phone : ℕ) (status : String) (s : Ivr) → SameRest s (webhook sid phone status s)
unfolding webhook
webhook-SameRest sid phone status s = elim (Option-cases (get_call sid s)) [
  | inl e ↦ rw (e, webhook) (refl, refl, refl, refl)
  | inr (c, e) ↦ rw (e, webhook) (refl, refl, refl, refl)
]

pub select_zone-SameRest : (sid : ℕ) (s : Ivr) → SameRest s (select_zone sid s)
unfolding select_zone
select_zone-SameRest sid s = elim (Option-cases (get_call sid s)) [
  | inl e ↦ rw (e, select_zone) (refl, refl, refl, refl)
  | inr (c, e) ↦ rw (e, select_zone) (refl, refl, refl, refl)
]

pub select_category-SameRest :
    (sid n a : ℕ) (c : IvrCall) (s : Ivr)
    → get_call sid s ≡ some c
    → choice n s.zones ≡ some a
    → SameRest s (select_category sid (number n) s).1
unfolding select_category
select_category-SameRest sid n a c s h e = rw (h, select_category) (rw e (refl, refl, refl, refl))

pub record_description-SameRest :
    (sid n b : ℕ) (c : IvrCall) (s : Ivr)
    → get_call sid s ≡ some c
    → choice n s.categories ≡ some b
    → SameRest s (record_description sid (number n) s).1
unfolding record_description
record_description-SameRest sid n b c s h e =
    rw (h, record_description) (rw e (refl, refl, refl, refl))
