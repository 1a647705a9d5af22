-- ===== src/Cincinnati/Upgrades.antt =====
-- cincinnati.go, `CalculateUpgrades` and `calculate`: the upgrades through the channels from a source
-- to a target. `calculate` calls itself for the channel of the next minor version; it stops at the
-- target, at a version that the channel lacks or at an error, and the model gives it fuel.
pub mod Unseen
use mathlib.Core.List.{reverse}
use Prim.Native.String.{◌++◌ as concat}
use oc_mirror.Base.{
  String, ℕ, zero, suc, List, [], ◌∷◌, ◌++◌, Bool, false, Option, none, some, Result, ok, err,
  if◌then◌else◌, ◌==◌, string_eq, any,
}
use oc_mirror.Base.Paths
use oc_mirror.Api.Version.{Semver}
use oc_mirror.Cincinnati.Client.{
  Node, Graph, Query, Failure, panic, invalid_channel_name, cannot_get_latest, cannot_get_current,
  out_of_fuel, Run, ◌>>>◌, or_instead, or_fail,
}
use oc_mirror.Cincinnati.Updates.{get_updates, get_channel_min_or_max, get_versions}

-- The parts of a version that the program reads and writes: `fmt.Sprintf("%v.%v", v.Major, v.Minor)`
-- and `v.Minor++`.
pub record Minors (V : Type 0) : Type 0 where
  pub major_minor : V → String
  pub bump_minor : V → V

-- `strings.LastIndex(s, "-")` with the parts of the string before and behind it.
abbrev cut_last : List String → Option (String × String)
unfolding Paths.join_with
cut_last [] = none
cut_last (w ∷ []) = none
cut_last (w ∷ (v ∷ ws)) = some (Paths.join_with "-" (reverse (v ∷ ws)), w)

unfoldable pub split_channel : String → Option (String × String)
unfolding Paths.split_on Paths.join_with
split_channel s = cut_last (reverse (Paths.split_on 45 s))

module _ {V : Type 0} ⦃sv : Semver V⦄ where
  -- The upgrades without those whose image was seen.
  unfoldable pub unseen : List String → List (Node V) → List (Node V)
  unseen seen [] = []
  unseen seen (upgrade ∷ upgrades) =
      let skip = unseen seen upgrades in
      let keep = unseen (upgrade.image ∷ seen) upgrades in
      if any (λ i. i == upgrade.image) seen then skip else upgrade ∷ keep

  abbrev pub has_version : V → List V → Bool
  has_version v vs = any (λ w. sv.to_string w == sv.to_string v) vs

  -- `Update{}`.
  abbrev pub no_update : Node V
  no_update = record { version = sv.none_version; image = ""; metadata = [] }

  module _ (minors : Minors V) (fetch : Query → Option (Graph V)) where
    abbrev next_channel : String → V → String
    next_channel name source = concat name (concat "-" (minors.major_minor source))

    abbrev must_parse : String → Result Failure V
    must_parse release = or_fail panic (sv.parse (concat release ".0"))

    -- The version to stop at in a channel.
    unfoldable pub target_version : String → String → String → V → Run V
    target_version arch channel target_channel req_ver c =
        let latest = get_channel_min_or_max fetch arch channel false c in
        if channel == target_channel then (c, ok req_ver) else latest

    unfoldable pub calculate : ℕ → String → String → String → V → V → Run (Node V × List (Node V))
    calculate zero arch source_channel target_channel start_ver req_ver c = (c, err out_of_fuel)
    calculate (suc fuel) arch source_channel target_channel start_ver req_ver c =
        (c, or_fail invalid_channel_name (split_channel source_channel))
        >>> λ (source_name, source_release) d.
            (d, or_fail invalid_channel_name (split_channel target_channel))
            >>> λ (target_name, target_release) d. (d, must_parse source_release) >>> λ source d.
                (d, must_parse target_release) >>> λ target d.
                let channel = next_channel source_name (minors.bump_minor source) in
                or_instead (target_version arch channel target_channel req_ver d)
                  (λ e d. (d, ok (no_update, [])))
                  (λ target_ver d.
                    or_instead (get_versions fetch channel d) (λ e d. (d, ok (no_update, [])))
                      (λ versions d.
                        if has_version start_ver versions
                        then (or_instead (get_updates fetch arch channel start_ver target_ver d)
                            (λ e d. (d, ok (no_update, [])))
                            (λ (current, requested, upgrades) d.
                              let more =
                                calculate fuel arch channel target_channel target_ver req_ver d in
                              if sv.eq (minors.bump_minor source) target
                              then (d, ok (requested, upgrades))
                              else or_instead more (λ e d. (d, ok (requested, upgrades)))
                                  (λ (req, up) d. (d, ok (req, upgrades ++ up)))))
                        else (get_updates fetch arch target_channel target_ver target_ver d
                            >>> λ (current, requested, path) d. (d, ok (requested, [])))))

    unfoldable pub calculate_upgrades :
        ℕ → String → String → String → V → V → Run (Node V × Node V × List (Node V))
    calculate_upgrades fuel arch source_channel target_channel start_ver req_ver c =
        let direct = get_updates fetch arch target_channel start_ver req_ver c in
        let through =
          or_instead (get_channel_min_or_max fetch arch source_channel false c)
            (λ e d. (d, err cannot_get_latest))
            (λ latest d.
              or_instead (get_updates fetch arch source_channel start_ver latest d)
                (λ e d. (d, err cannot_get_current))
                (λ (current, last, upgrades) d.
                  calculate fuel arch source_channel target_channel latest req_ver d
                  >>> λ (requested, more) d.
                      (d, ok (current, requested, unseen [] (upgrades ++ more))))) in
        if source_channel == target_channel then direct else through
