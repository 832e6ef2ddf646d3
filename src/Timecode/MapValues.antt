-- ===== src/Timecode/MapValues.antt =====
-- Maps of which every value is changed.
use mizer.Prelude.{◌≡◌, arith, ℕ, some, [], ◌∷◌, ==_iff}
use mizer.Prelude.Maps.{Map, lookup, nat_eq}
use mizer.Timecode.{map_values}

pub lookup-map_values :
    {V W : Type 0} (f : ℕ → V → W) (k : ℕ) (v : V) (m : Map ℕ V)
    → lookup k m ≡ some v
    → lookup k (map_values f m) ≡ some (f k v)
unfolding lookup map_values
lookup-map_values f k v [] h = ground arith
lookup-map_values f k v ((j, u) ∷ m) h = ground (arith, ==_iff j k, lookup-map_values f k v m)
