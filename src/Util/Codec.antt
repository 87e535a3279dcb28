-- ===== src/Util/Codec.antt =====
-- What protocol buffers make of messages: proto.Marshal and proto.Unmarshal.
use bazel_buildbarn.Prelude.{ℕ, List, ◌⊎◌}
use bazel_buildbarn.Util.Status.{Error}

pub record Codec (A : Type 0) : Type 0 where
  pub marshal : A → Error ⊎ List ℕ
  pub unmarshal : List ℕ → Error ⊎ A
