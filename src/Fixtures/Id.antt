-- ===== src/Fixtures/Id.antt =====
-- `FixtureId` of crates/components/fixtures/src/lib.rs.
use mizer.Prelude.{ℕ, ◌≡◌, ◌↔◌, Bool, true, false, ◌&&◌, arith, ◌==◌}
use mizer.Prelude.Maps.{Eq}

pub data FixtureId : Type 0 where
  fixture : ℕ → FixtureId
  sub_fixture : ℕ → ℕ → FixtureId

-- `derive(PartialEq)`
abbrev pub id_beq : FixtureId → FixtureId → Bool
id_beq (fixture a) (fixture b) = a == b
id_beq (sub_fixture a c) (sub_fixture b d) = a == b && c == d
id_beq _ _ = false

pub id_beq_iff : (a b : FixtureId) → (id_beq a b ≡ true) ↔ (a ≡ b)
id_beq_iff (fixture a) (fixture b) = ground arith
id_beq_iff (fixture a) (sub_fixture b d) = ground arith
id_beq_iff (sub_fixture a c) (fixture b) = ground arith
id_beq_iff (sub_fixture a c) (sub_fixture b d) = ground arith

instance abbrev pub id_eq : Eq FixtureId
id_eq = record { beq = id_beq; beq_iff = id_beq_iff }
