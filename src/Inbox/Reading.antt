-- ===== src/Inbox/Reading.antt =====
-- What reading does to the counters of a user and of the others.
use mapapi.Prelude.{ℕ, ◌+◌, ◌≡◌, refl, true, false, not, ◌&&◌, none, List, [], ◌∷◌, arith, ◌==◌}
use mapapi.Orm.{update, count}
use mapapi.Inbox.{Note, own, list_notes, mark_all_read, notes_of}

abbrev read_up : (u : ℕ) → List Note → List Note
read_up u ns = update (λ n. n.user == u && not n.read) (λ n. record n { read = true }) ns

unread-counted :
    (u : ℕ) (ns : List Note)
    → count (λ n. n.user == u && not n.read) ns ≡ count (λ n. not n.read) (own u ns)
unread-counted u [] = refl
unread-counted u (n ∷ ns) = ground (arith, unread-counted u ns)

unread-read_up : (u : ℕ) (ns : List Note) → count (λ n. not n.read) (own u (read_up u ns)) ≡ 0
unread-read_up u [] = refl
unread-read_up u (n ∷ ns) = ground (arith, unread-read_up u ns)

read-read_up :
    (u : ℕ) (ns : List Note)
    → count (λ n. n.read) (own u (read_up u ns))
      ≡ count (λ n. not n.read) (own u ns) + count (λ n. n.read) (own u ns)
read-read_up u [] = refl
read-read_up u (n ∷ ns) = ground (arith, read-read_up u ns)

others-read_up : (u v : ℕ) (ns : List Note) → (v == u) ≡ false → own v (read_up u ns) ≡ own v ns
others-read_up u v [] h = refl
others-read_up u v (n ∷ ns) h = ground (arith, others-read_up u v ns h)

-- `mark_all_read` counts what was unread; after it the user has nothing unread and as many read as he had
-- in all, and the notifications of any other user are as they were.
mark_all_read_lem :
    (u v : ℕ) (ns : List Note)
    → (v == u) ≡ false
    → let o : ℕ × List Note = mark_all_read u ns in
      (o.0 ≡ (list_notes u none ns).unread_count)
      × ((list_notes u none o.1).unread_count ≡ 0)
      × ((list_notes u none o.1).read_count ≡ (list_notes u none ns).total_count)
      × ((list_notes v none o.1).results ≡ (list_notes v none ns).results)
unfolding mark_all_read list_notes notes_of
mark_all_read_lem u v ns other =
    (unread-counted u ns, unread-read_up u ns, read-read_up u ns, others-read_up u v ns other)
