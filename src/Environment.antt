-- ===== src/Environment.antt =====
-- What the supervisor takes from outside the repository: the operating system's directories, the
-- SHA-256 digests under its identities, and the JSON decoder of runtime arguments.
use durable_agent_handoff.Prelude.{
  String, Option, List, blank, invalid, Fallible, ◌>>◌, refuse, join,
}
use Prim.Native.Char.{char}

pub record Environment : Type 0 where
  -- the first 12 bytes of the SHA-256 digest of a text, in hexadecimal
  pub short_digest : String → String
  -- filepath.Abs, filepath.EvalSymlinks and os.Stat, then filepath.Clean, of a directory
  pub canonical_path : String → Fallible String
  -- json.Unmarshal into a list of strings
  pub json_strings : String → Option (List String)

-- canonicalDirectory of internal/supervisor/commands.go
pub canonical_directory : Environment → String → Fallible String
canonical_directory env path = do
  refuse (blank path) (invalid "root is required")
  env.canonical_path path

abbrev pub nul : String
nul = String.◌∷◌ (char 0 tt) ""

-- stableID of internal/supervisor/commands.go
unfoldable pub stable_id : Environment → String → String → String
unfolding join
stable_id env prefix key = join prefix (join "_" (env.short_digest (join prefix (join nul key))))
