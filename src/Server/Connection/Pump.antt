-- ===== src/Server/Connection/Pump.antt =====
-- `pump_output` of src/server.rs, and what the channel gives the bridge of it.
use nix_capsule.Server.Connection.State.{Chunk, Event}
use nix_capsule.Server.Connection.Produced.{outs, errs_of, produced_out, produced_err}
use nix_capsule.Protocol.Message.{Message}
use nix_capsule.Prelude.{Bytes, ℕ, ◌≡◌, refl, sym, ap, ◌∙◌, List, [], ◌∷◌, ◌++◌}

-- A read of one of the child's pipes: some bytes, its end, or a failure.
pub data PipeRead : Type 0 where
  bytes : ℕ → Bytes → PipeRead
  end failed : PipeRead

-- The messages that the task puts into the channel, `wrap` being the constructor of its pipe. It stops at
-- the end and at a failure; what the channel refuses once the connection is gone has no reader.
unfoldable pub pump_output : (Bytes → Message) → List PipeRead → List Message
pump_output wrap [] = []
pump_output wrap (PipeRead.bytes b bs ∷ reads) = wrap (b ∷ bs) ∷ pump_output wrap reads
pump_output wrap (PipeRead.end ∷ reads) = []
pump_output wrap (PipeRead.failed ∷ reads) = []

-- The bytes that the reads of a pipe gave, until its end or a failure.
abbrev pub pipe_bytes : List PipeRead → Bytes
pipe_bytes [] = []
pipe_bytes (PipeRead.bytes b bs ∷ reads) = b ∷ bs ++ pipe_bytes reads
pipe_bytes (_ ∷ reads) = []

-- The messages of each pipe that the bridge took from the channel until it was drained.
abbrev pub received_out : List Event → List Message
received_out [] = []
received_out (Event.drained ∷ es) = []
received_out (Event.output (Chunk.out b) ∷ es) = Message.stdout b ∷ received_out es
received_out (_ ∷ es) = received_out es

abbrev pub received_err : List Event → List Message
received_err [] = []
received_err (Event.drained ∷ es) = []
received_err (Event.output (Chunk.errs b) ∷ es) = Message.stderr b ∷ received_err es
received_err (_ ∷ es) = received_err es

received_out-produced_out : (es : List Event) → outs (received_out es) ≡ produced_out es
received_out-produced_out [] = refl
received_out-produced_out (Event.drained ∷ es) = refl
received_out-produced_out (Event.output (Chunk.out b) ∷ es) =
    ap (λ t. b ++ t) (received_out-produced_out es)
received_out-produced_out (Event.output (Chunk.errs b) ∷ es) = received_out-produced_out es
received_out-produced_out (Event.frame r ∷ es) = received_out-produced_out es
received_out-produced_out (Event.closed ∷ es) = received_out-produced_out es
received_out-produced_out (Event.stopping ∷ es) = received_out-produced_out es

received_err-produced_err : (es : List Event) → errs_of (received_err es) ≡ produced_err es
received_err-produced_err [] = refl
received_err-produced_err (Event.drained ∷ es) = refl
received_err-produced_err (Event.output (Chunk.errs b) ∷ es) =
    ap (λ t. b ++ t) (received_err-produced_err es)
received_err-produced_err (Event.output (Chunk.out b) ∷ es) = received_err-produced_err es
received_err-produced_err (Event.frame r ∷ es) = received_err-produced_err es
received_err-produced_err (Event.closed ∷ es) = received_err-produced_err es
received_err-produced_err (Event.stopping ∷ es) = received_err-produced_err es

outs-pump_output :
    (reads : List PipeRead) → outs (pump_output Message.stdout reads) ≡ pipe_bytes reads
unfolding pump_output
outs-pump_output [] = refl
outs-pump_output (PipeRead.bytes b bs ∷ reads) = ap (λ t. b ∷ bs ++ t) (outs-pump_output reads)
outs-pump_output (PipeRead.end ∷ reads) = refl
outs-pump_output (PipeRead.failed ∷ reads) = refl

errs_of-pump_output :
    (reads : List PipeRead) → errs_of (pump_output Message.stderr reads) ≡ pipe_bytes reads
unfolding pump_output
errs_of-pump_output [] = refl
errs_of-pump_output (PipeRead.bytes b bs ∷ reads) =
    ap (λ t. b ∷ bs ++ t) (errs_of-pump_output reads)
errs_of-pump_output (PipeRead.end ∷ reads) = refl
errs_of-pump_output (PipeRead.failed ∷ reads) = refl

-- The output that the bridge took is what the reads of the two pipes gave, when the channel gave it the
-- messages of each task, whole and in order.
pub produced_out-pump_output :
    (es : List Event) (reads : List PipeRead)
    → received_out es ≡ pump_output Message.stdout reads
    → produced_out es ≡ pipe_bytes reads
produced_out-pump_output es reads e =
    sym (received_out-produced_out es) ∙ ap outs e ∙ outs-pump_output reads

pub produced_err-pump_output :
    (es : List Event) (reads : List PipeRead)
    → received_err es ≡ pump_output Message.stderr reads
    → produced_err es ≡ pipe_bytes reads
produced_err-pump_output es reads e =
    sym (received_err-produced_err es) ∙ ap errs_of e ∙ errs_of-pump_output reads
