-- ===== src/Protocol/Message/Typed.antt =====
-- The stdin that messages of src/protocol.rs carry.
use nix_capsule.Prelude.{Bytes, List, [], ◌∷◌, ◌++◌}
use nix_capsule.Protocol.Message.{Message}

-- The bytes of the `Stdin` messages before the empty one, which marks the end.
abbrev pub typed : List Message → Bytes
typed [] = []
typed (Message.stdin [] ∷ ms) = []
typed (Message.stdin (b ∷ bs) ∷ ms) = b ∷ bs ++ typed ms
typed (_ ∷ ms) = typed ms
