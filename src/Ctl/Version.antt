-- ===== src/Ctl/Version.antt =====
-- The version probe of src/ctl/version.rs.
use nix_capsule.Ctl.Machine.{Call, Machine, Program}
use nix_capsule.Protocol.Codec.{Frame}
use nix_capsule.Protocol.Errors.{DecodeError}
use nix_capsule.Protocol.Message.{Message, from_frame}
use nix_capsule.Prelude.{
  if◌then◌else◌, Result, ok, Str, codes, str_eq, Bool, true, false, Option, none, some, List, [],
  ◌∷◌, ◌++◌,
}

abbrev skew_text : Str → Str → Str → Str
skew_text socket version current =
    codes "ncap-ctl: server on `"
    ++ (socket
        ++ (codes "` is running version "
            ++ (version ++ (codes ", the host binaries are " ++ current))))

abbrev silent_text : Str → Str → Str
silent_text socket current =
    codes "ncap-ctl: server on `"
    ++ (socket ++ (codes "` will not report a version, the host binaries are " ++ current))

abbrev pub advice : Str
advice = codes "run `ncap-ctl restart` to match them back at one version"

-- The lines that a reply is answered with.
unfoldable pub skew_lines : Str → Str → Result DecodeError Message → List Str
skew_lines socket current (ok (Message.server_version v)) =
    if str_eq v.version current then [] else skew_text socket v.version current ∷ advice ∷ []
skew_lines socket current _ = silent_text socket current ∷ advice ∷ []

abbrev pub noticed : List Str → List Call → List Call
noticed [] h = h
noticed (line ∷ lines) h = noticed lines (Call.notice line ∷ h)

module _ (m : Machine) where
  abbrev pub replied : Str → Option Frame → List Call → List Call
  replied socket none h = h
  replied socket (some f) h = noticed (skew_lines socket m.version (from_frame m.json f)) h

  abbrev pub probed : Str → Bool → List Call → List Call
  probed socket false h = h
  probed socket true h = replied socket (m.version_reply h socket) (Call.version_probe socket ∷ h)

  -- It never fails the command.
  unfoldable pub warn_on_skew : {E : Type 0} → Str → Program E (Unit {0})
  unfolding skew_lines
  warn_on_skew socket h = (ok tt, probed socket (m.connect h socket) (Call.connect socket ∷ h))
