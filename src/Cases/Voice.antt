-- ===== src/Cases/Voice.antt =====
-- A call to the voice server.
use mapapi.Prelude.{ℕ, ◌+◌, [], ◌∷◌}
use mapapi.Ivr.{Ivr}
use mapapi.Cases.Sample.{sample}

abbrev address_of : ℕ → ℕ
address_of phone = phone + 1000

abbrev idle : Ivr
idle = record {
  zones = 501 ∷ 502 ∷ [];
  categories = 601 ∷ 602 ∷ [];
  calls = [];
  interactions = [];
  reports = [];
  db = sample;
}
