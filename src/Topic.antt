-- ===== src/Topic.antt =====
-- `Topic` of src/lib.rs, the key of the registry.
pub mod Pairs
use text.Mathlib.Text.{◌==◌ as str_eq}
use text.Mathlib.TextEquality.{eq_iff}
use nexus_relay.Prelude.{String, Bool, true, false, ◌≡◌, ◌↔◌, Eq, arith}

-- The derived `Eq` compares the variant and then the text.
pub data Topic : Type 0 where
  validated : String → Topic
  unvalidated : String → Topic

abbrev pub topic_beq : Topic → Topic → Bool
topic_beq (validated s) (validated t) = str_eq s t
topic_beq (unvalidated s) (unvalidated t) = str_eq s t
topic_beq _ _ = false

pub topic_beq_iff : (a b : Topic) → (topic_beq a b ≡ true) ↔ (a ≡ b)
topic_beq_iff (validated s) (validated t) = ground (arith, eq_iff s t)
topic_beq_iff (unvalidated s) (unvalidated t) = ground (arith, eq_iff s t)
topic_beq_iff _ _ = ground arith

instance abbrev pub topic_eq : Eq Topic
topic_eq = record { beq = topic_beq; beq_true = topic_beq_iff }
