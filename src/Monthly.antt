-- ===== src/Monthly.antt =====
-- The statistics of a zone by month, IncidentByMonthByZoneAPIView of views/incident.py. The day and the
-- zone of an incident are arguments; the order of the months is left out.
pub mod Totals
use mapapi.Prelude.{ℕ, Bool, ◌&&◌, List, map, ◌==◌, if◌then◌else◌}
use mapapi.Orm.{filter, count, length}
use mapapi.Models.{Incident, Db, is_closed, is_declared}
use mapapi.Impact.{Calendar, distinct}

pub record MonthRow : Type 0 where
  pub month : ℕ
  pub total : ℕ
  pub resolved : ℕ
  pub unresolved : ℕ

module _ (c : Calendar) (created zone_of : ℕ → ℕ) where
  abbrev pub month_of : Incident → ℕ
  month_of i = c.month (created i.id)

  -- `items`
  unfoldable pub year_items : ℕ → ℕ → Db → List Incident
  year_items zone now db =
      filter (λ i. zone_of i.id == zone && c.year (created i.id) == c.year now) db.incidents

  -- `dataMonth`
  abbrev pub month_row : List Incident → ℕ → MonthRow
  month_row items m = record {
    month = m;
    total = count (λ i. month_of i == m) items;
    resolved = count (λ i. is_closed i.etat) (filter (λ i. month_of i == m) items);
    unresolved = count (λ i. is_declared i.etat) (filter (λ i. month_of i == m) items);
  }

  -- `get`
  unfoldable pub monthly : ℕ → ℕ → Db → List MonthRow
  unfolding year_items
  monthly zone now db =
      map (month_row (year_items zone now db)) (distinct (map month_of (year_items zone now db)))
