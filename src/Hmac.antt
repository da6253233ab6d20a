-- ===== src/Hmac.antt =====
-- src/tab_conductor/hmac_signer.py: signatures on payloads. HMAC-SHA256, as a function of the key and
-- the message, and the canonical JSON text of a payload are parameters; keys are texts.
mod Laws
mod Tests
use Prim.Native.Char.{code}
use tab_conductor.Prelude.{
  ℕ, String, Bool, true, false, ◌&&◌, Option, none, some, List, [], ◌∷◌, leb, ◌==◌, if◌then◌else◌,
}
use tab_conductor.Prelude.Call.{Call, returns, raises, ◌>>=◌}
use tab_conductor.Value.{Value, str, Fields, end, field, get, without}

-- `not_ascii` is the TypeError of `hmac.compare_digest`, `not_serialisable` the error of `json.dumps`.
pub data HmacError : Type 0 where
  key_missing : String → HmacError
  not_serialisable not_ascii : HmacError

pub record HmacSigner : Type 0 where
  pub env_var : String
  pub key : Option String

-- the key given, else the environment variable's value
unfoldable pub new : Option String → String → (String → Option String) → HmacSigner
new (some key) env_var environ = record { env_var = env_var; key = some key }
new none env_var environ = record { env_var = env_var; key = environ env_var }

abbrev is_some : Option String → Bool
is_some none = false
is_some (some _) = true

unfoldable pub enabled : HmacSigner → Bool
enabled s = is_some s.key

-- signed[key] = value, for a key that is not there
unfoldable pub append : String → Value → Fields → Fields
append key value end = field key value end
append key value (field k v fs) = field k v (append key value fs)

unfoldable pub is_ascii : String → Bool
is_ascii String.[] = true
is_ascii (String.◌∷◌ c s) = leb (code c) 127 && is_ascii s

-- hmac.compare_digest of texts
unfoldable pub compare_digest : String → String → Call HmacError Bool
compare_digest expected provided =
    if is_ascii expected && is_ascii provided
    then returns (expected == provided)
    else raises not_ascii

abbrev pub sig_field : String
sig_field = "_sig"

module _ (canonical_json : Fields → Option String) (hmac : String → String → String) where
  unfoldable pub digest : String → Option String → Call HmacError String
  digest key none = raises not_serialisable
  digest key (some message) = returns (hmac key message)

  abbrev pub sign_with : Option String → HmacSigner → Fields → Call HmacError Fields
  sign_with none s payload = raises (key_missing s.env_var)
  sign_with (some key) s payload =
      let clean = without (sig_field ∷ []) payload in
      digest key (canonical_json clean) >>= (λ sig. returns (append sig_field (str sig) clean))

  unfoldable pub sign : HmacSigner → Fields → Call HmacError Fields
  sign s payload = sign_with s.key s payload

  abbrev pub check_with : String → Option Value → Fields → Call HmacError Bool
  check_with key (some (str provided)) payload =
      digest key (canonical_json (without (sig_field ∷ []) payload))
      >>= (λ expected. compare_digest expected provided)
  check_with key _ payload = returns false

  abbrev pub verify_with : Option String → Fields → Call HmacError Bool
  verify_with none payload = returns false
  verify_with (some key) payload = check_with key (get sig_field payload) payload

  unfoldable pub verify : HmacSigner → Fields → Call HmacError Bool
  verify s payload = verify_with s.key payload
