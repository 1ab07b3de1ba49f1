-- ===== src/Cases/Boards.antt =====
-- Dashboards and lists at concrete tables.
use mapapi.Prelude.{ℕ, ◌+◌, ◌/◌, ◌%◌, ◌≤◌, ◌≡◌, none, some, [], ◌∷◌, ◌==◌, ◌&&◌, not, ◌⊎◌, arith}
use mapapi.Orm.{count, filter}
use mapapi.Models.{Db, is_taken, is_final, high, medium, low}
use mapapi.Predictions.{completed}
use mapapi.Impact.{
  Calendar, Source, this_month, last_month, resolved, taken_action, all, in_period, impact_scope,
}
use mapapi.Impact.Totals.{Analysis, figures}
use mapapi.Impact.Partition.{Adds, is_done, impact_scope_splits}
use mapapi.Impact.Periods.{month_number, in_period_month}
use mapapi.Listings.{agents_or_internal, org_incidents, resolved_list, unresolved_list}
use mapapi.Listings.Split.{is_own, lists_partition}
use mapapi.Dashboard.{dashboard}
use mapapi.Dashboard.Shares.{dashboard_shares}
use mapapi.Cases.Sample.{alice, fresh_one, led_one, closed_one, sample, sample-Distinct}

-- twelve months of thirty days
abbrev calendar : Calendar
calendar = record { year = λ d. d / 360 + 1; month = λ d. d % 360 / 30 + 1 }

abbrev analysed : ℕ → Analysis
analysed k = record {
  incident = some k;
  status = completed;
  people = λ g. 100;
  indirect_people = λ g. none;
  infra = λ t. 2;
  indirect_infra = λ t. some 1;
}

abbrev source : Source
source = record {
  db = sample;
  analyses = analysed 2 ∷ analysed 3 ∷ [];
  assignments = [];
  created = λ k. 700 + k;
}

impact_scope_splits_example :
    Adds
      (figures (impact_scope calendar 710 source none this_month resolved) source.analyses)
      (figures (impact_scope calendar 710 source none this_month taken_action) source.analyses)
      (figures (impact_scope calendar 710 source none this_month all) source.analyses)
    × (figures
          (impact_scope calendar 710 source none this_month all)
          (filter (λ a. is_done a.status) source.analyses)
        ≡ figures (impact_scope calendar 710 source none this_month all) source.analyses)
impact_scope_splits_example =
    impact_scope_splits calendar 710 source none this_month sample-Distinct

-- a day of the first month of the third year, and one of the month before
in_period_month_example :
    (in_period calendar this_month 725 700
      ≡ (month_number calendar 700 == month_number calendar 725))
    × (in_period calendar last_month 725 700
        ≡ (month_number calendar 700 + 1 == month_number calendar 725))
in_period_month_example =
    in_period_month calendar 725 700 (omega arith, omega arith, omega arith)
      (omega arith, omega arith, omega arith)

lists_partition_example :
    (count (λ i. is_taken i.etat) (org_incidents alice agents_or_internal sample)
      ≡ count
          (λ i. is_taken i.etat && not i.is_deleted && is_own alice.organisation_member sample i)
          sample.incidents)
    × (count (λ i. is_taken i.etat) (resolved_list alice sample)
        ≡ count
            (λ i.
              is_taken i.etat
              && not i.is_deleted
              && is_final i.etat
              && not (is_own alice.organisation_member sample i))
            sample.incidents)
    × (count (λ i. is_taken i.etat) (unresolved_list alice sample)
        ≡ count
            (λ i.
              is_taken i.etat
              && not i.is_deleted
              && not (is_final i.etat)
              && not (is_own alice.organisation_member sample i))
            sample.incidents)
    × (count (λ i. is_taken i.etat) (org_incidents alice agents_or_internal sample)
          + count (λ i. is_taken i.etat) (resolved_list alice sample)
          + count (λ i. is_taken i.etat) (unresolved_list alice sample)
        ≡ count (λ i. is_taken i.etat && not i.is_deleted) sample.incidents)
lists_partition_example = lists_partition (λ i. is_taken i.etat) alice sample

-- one incident of each severity: 33 % thrice
abbrev rated : Db
rated = record sample {
  incidents =
      record fresh_one { severity = some high }
      ∷ record led_one { severity = some medium }
      ∷ record closed_one { severity = some low }
      ∷ [];
}

dashboard_shares_example :
    ((((dashboard rated).severity_count high
          + (dashboard rated).severity_count medium
          + (dashboard rated).severity_count low)
        ≡ 0)
      × (((dashboard rated).severity_percentage high
            + (dashboard rated).severity_percentage medium
            + (dashboard rated).severity_percentage low)
          ≡ 0))
    ⊎ ((99
          ≤ (dashboard rated).severity_percentage high
            + (dashboard rated).severity_percentage medium
            + (dashboard rated).severity_percentage low)
        × ((dashboard rated).severity_percentage high
              + (dashboard rated).severity_percentage medium
              + (dashboard rated).severity_percentage low
            ≤ 101))
dashboard_shares_example = dashboard_shares rated
