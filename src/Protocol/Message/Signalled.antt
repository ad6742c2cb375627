-- ===== src/Protocol/Message/Signalled.antt =====
-- The signals that messages of src/protocol.rs carry.
use nix_capsule.Protocol.Message.{Message}
use nix_capsule.Prelude.{ℕ, ◌≡◌, refl, ap, List, [], ◌∷◌, ◌++◌}

-- The numbers of the `Signal` messages, in order.
abbrev pub signalled : List Message → List ℕ
signalled [] = []
signalled (Message.signal n ∷ ms) = n.signal ∷ signalled ms
signalled (_ ∷ ms) = signalled ms

pub signalled-append : (xs ys : List Message) → signalled (xs ++ ys) ≡ signalled xs ++ signalled ys
signalled-append [] ys = refl
signalled-append (Message.signal n ∷ ms) ys = ap (λ t. n.signal ∷ t) (signalled-append ms ys)
signalled-append (Message.request r ∷ ms) ys = signalled-append ms ys
signalled-append (Message.stdin b ∷ ms) ys = signalled-append ms ys
signalled-append (Message.stdout b ∷ ms) ys = signalled-append ms ys
signalled-append (Message.stderr b ∷ ms) ys = signalled-append ms ys
signalled-append (Message.exit x ∷ ms) ys = signalled-append ms ys
signalled-append (Message.error x ∷ ms) ys = signalled-append ms ys
signalled-append (Message.version x ∷ ms) ys = signalled-append ms ys
signalled-append (Message.server_version x ∷ ms) ys = signalled-append ms ys
signalled-append (Message.request_version ∷ ms) ys = signalled-append ms ys
signalled-append (Message.server_stopping ∷ ms) ys = signalled-append ms ys
