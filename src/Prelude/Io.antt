-- ===== src/Prelude/Io.antt =====
-- `std::io::Error`: the kind that the code tests, and the text that the error prints as.
use nix_capsule.Prelude.{Str}

pub data ErrorKind : Type 0 where
  not_found permission_denied broken_pipe interrupted other : ErrorKind

pub record IoError : Type 0 where
  pub kind : ErrorKind
  pub text : Str
