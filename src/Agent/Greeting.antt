-- ===== src/Agent/Greeting.antt =====
-- Agent::HandleHelloMsg: what the collector agent says of itself, and the callback for it.
use pinpoint_c_agent.Base.{
  ℕ, Bool, false, List, [], ◌∷◌, Option, none, some, if◌then◌else◌, ℤ, pos, negsuc, ltb_ℤ, Error,
  Result, ok, err, stoll, to_uint64, true,
}
use pinpoint_c_agent.Cache.State.{ProcessState, is_ready, set_start_time}
use pinpoint_c_agent.Version.{compare_version}

-- What the code uses of the message that jsoncpp reads, where it is an object: the version, where the
-- test of it holds, as asString gives it, which throws for an array and an object; and the time,
-- where it is a text.
pub record Hello : Type 0 where
  pub version : Option (Result (List ℕ))
  pub time : Option (List ℕ)

-- "v0.7.0".
abbrev pub lowest_version : List ℕ
lowest_version = b'v' ∷ b'0' ∷ b'.' ∷ b'7' ∷ b'.' ∷ b'0' ∷ []

abbrev pub is_too_old : Option ℤ → Bool
is_too_old none = false
is_too_old (some order) = ltb_ℤ order (pos 0)

abbrev pub version_too_old : Option (Result (List ℕ)) → Result Bool
version_too_old none = ok false
version_too_old (some (err e)) = err e
version_too_old (some (ok version)) = ok (is_too_old (compare_version version lowest_version))

abbrev pub announce_at : Result ℤ → ProcessState → Result ℤ × ProcessState
announce_at (err e) s = (err e, s)
announce_at (ok time) s = (ok (pos 0), set_start_time (to_uint64 time) s)

abbrev pub announce : Option (List ℕ) → ProcessState → Result ℤ × ProcessState
announce none s = (ok (pos 0), s)
announce (some time) s = announce_at (stoll time) s

abbrev pub greet_version : Result Bool → Option (List ℕ) → ProcessState → Result ℤ × ProcessState
greet_version (err e) time s = (err e, s)
greet_version (ok old) time s = if old then (ok (negsuc 0), s) else announce time s

abbrev pub greet : Result Hello → ProcessState → Result ℤ × ProcessState
greet (err e) s = (err e, s)
greet (ok hello) s = greet_version (version_too_old hello.version) hello.time s

-- `parse` is an error where the message is neither an object nor null, which jsoncpp throws for.
unfoldable pub handle_hello_msg :
    (List ℕ → Result Hello) → List ℕ → ProcessState → Result ℤ × ProcessState
handle_hello_msg parse buf s = if is_ready s then (ok (pos 0), s) else greet (parse buf) s

-- What the callbacks of the connections act on, with an exception that one of them threw.
pub record Handlers : Type 0 where
  pub process : ProcessState
  pub thrown : Option Error

abbrev pub is_error : Option Error → Bool
is_error none = false
is_error (some e) = true

abbrev pub has_thrown : Handlers → Bool
has_thrown h = is_error h.thrown

abbrev pub called_back : Result ℤ × ProcessState → Handlers → ℤ × Handlers
called_back (ok ret, s) h = (ret, record h { process = s })
called_back (err e, s) h = (negsuc 0, record { process = s; thrown = some e })

-- The callback that the connections have for the type 0.
unfoldable pub on_hello : (List ℕ → Result Hello) → List ℕ → Handlers → ℤ × Handlers
on_hello parse buf h = called_back (handle_hello_msg parse buf h.process) h
