-- ===== src/Replicas.antt =====
-- Replicas of a region from its configuration, an int or a percentage of the total
-- (ParseRegionReplicas and round in pkg/controllers/extendeddeployment/controller_util.go).
pub mod Decimal
pub mod Percent
use extended_deployment.Base.{
  ℕ, ◌+◌, ◌*◌, ◌/◌, List, ℤ, pos, pos_part, ltb_ℤ, Bool, ◌||◌, if◌then◌else◌, Option, none, some,
  Result, ok, err, negative_replicas, total_unset, not_percentage, not_integer, out_of_range,
}
use extended_deployment.Api.{IntOrString, int, str}
use Decimal.{cut_percent, parse_int32}

-- int32(round(float64(total) * float64(percent) / 100)) for a total in [0, 2^31) and a percentage
-- in [0, 100]. The product is below 2^38, so it is exact in a float64; the quotient is the nearest
-- float64, whose error is below 2^-22, while a fraction other than one half is at least 1/100 away
-- from one half. So the result is the integer below total * percent / 100 + 1/2.
unfoldable pub round_percent : ℤ → ℤ → ℤ
round_percent total percent = pos ((pos_part total * pos_part percent + 50) / 100)

unfoldable pub checked_percent : ℤ → ℤ → Result ℤ
unfolding round_percent
checked_percent total percent =
    if ltb_ℤ (pos 100) percent || ltb_ℤ percent (pos 0)
    then err out_of_range
    else ok (round_percent total percent)

unfoldable pub parse_region_replicas : ℤ → IntOrString → Result ℤ
unfolding checked_percent
parse_region_replicas total (int v) = if ltb_ℤ v (pos 0) then err negative_replicas else ok v
parse_region_replicas total (str s) =
    if ltb_ℤ total (pos 0) then err total_unset else elim (cut_percent s) [
      | none ↦ err not_percentage
      | some digits ↦ elim (parse_int32 digits) [
        | none ↦ err not_integer
        | some percent ↦ checked_percent total percent
      ]
    ]
