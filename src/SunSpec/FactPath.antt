-- ===== src/SunSpec/FactPath.antt =====
-- sunspec_nested_layout.go: the paths of nested facts.
use helianthus_modbusreg.Base.{
  ℕ, Bool, ◌&&◌, not, List, [], ◌∷◌, Result, ok, ◌==◌, length, ◌>>=◌, ◌>>◌, refuse_if,
}

pub record SunSpecFactPathSegment : Type 0 where
  pub name : List ℕ
  pub index : ℕ
  pub indexed : Bool

pub record SunSpecFactPath : Type 0 where
  pub segments : List SunSpecFactPathSegment

pub data PathError : Type 0 where
  no_segments no_name unindexed_index : PathError

-- The loop over the segments.
unfoldable pub check_segments : List SunSpecFactPathSegment → Result PathError (Unit {0})
check_segments [] = ok tt
check_segments (s ∷ ss) =
    refuse_if (length s.name == 0) no_name
    >> refuse_if (not s.indexed && not (s.index == 0)) unindexed_index
    >> check_segments ss

-- `NewSunSpecFactPath`
unfoldable pub new_fact_path : List SunSpecFactPathSegment → Result PathError SunSpecFactPath
unfolding check_segments
new_fact_path ss =
    refuse_if (length ss == 0) no_segments
    >> (check_segments ss >>= λ u. ok (record { segments = ss }))
