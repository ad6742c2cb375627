-- ===== src/Server/Connection/Produced.antt =====
-- The output of a child on the server's side of src/server.rs: what it wrote, and what messages carry.
use nix_capsule.Prelude.{
  Bytes, ◌≡◌, refl, sym, ap, ◌∙◌, Bool, true, false, not, ◌&&◌, List, [], ◌∷◌, ◌++◌, append_assoc,
  arith,
}
use nix_capsule.Protocol.Message.{Exit, Message}
use nix_capsule.Server.Connection.State.{Chunk, Event}

-- The payload of a `Stdout` message, and of a `Stderr` message.
abbrev pub out_of : Message → Bytes
out_of (Message.stdout b) = b
out_of _ = []

abbrev pub err_of : Message → Bytes
err_of (Message.stderr b) = b
err_of _ = []

abbrev pub outs : List Message → Bytes
outs [] = []
outs (m ∷ ms) = out_of m ++ outs ms

abbrev pub errs_of : List Message → Bytes
errs_of [] = []
errs_of (m ∷ ms) = err_of m ++ errs_of ms

-- What the child wrote until its pipes were drained.
abbrev pub produced_out : List Event → Bytes
produced_out [] = []
produced_out (Event.drained ∷ es) = []
produced_out (Event.output (Chunk.out b) ∷ es) = b ++ produced_out es
produced_out (_ ∷ es) = produced_out es

abbrev pub produced_err : List Event → Bytes
produced_err [] = []
produced_err (Event.drained ∷ es) = []
produced_err (Event.output (Chunk.errs b) ∷ es) = b ++ produced_err es
produced_err (_ ∷ es) = produced_err es

abbrev pub is_exit : Message → Bool
is_exit (Message.exit _) = true
is_exit _ = false

abbrev pub exitless : List Message → Bool
exitless [] = true
exitless (m ∷ ms) = not (is_exit m) && exitless ms

pub outs-append : (xs ys : List Message) → outs (xs ++ ys) ≡ outs xs ++ outs ys
outs-append [] ys = refl
outs-append (m ∷ ms) ys =
    ap (λ t. out_of m ++ t) (outs-append ms ys) ∙ sym (append_assoc (out_of m) (outs ms) (outs ys))

pub errs_of-append : (xs ys : List Message) → errs_of (xs ++ ys) ≡ errs_of xs ++ errs_of ys
errs_of-append [] ys = refl
errs_of-append (m ∷ ms) ys =
    ap (λ t. err_of m ++ t) (errs_of-append ms ys)
    ∙ sym (append_assoc (err_of m) (errs_of ms) (errs_of ys))

pub exitless-append :
    (ms : List Message) (m : Message)
    → exitless ms ≡ true
    → is_exit m ≡ false
    → exitless (ms ++ m ∷ []) ≡ true
exitless-append [] m h t = rw t
exitless-append (x ∷ ms) m h t = ground (arith, exitless-append ms m)

pub exit-last : (ms : List Message) (x : Exit) → exitless (ms ++ Message.exit x ∷ []) ≡ false
exit-last [] x = refl
exit-last (m ∷ ms) x = ground (arith, exit-last ms x)
