-- ===== src/Vlogger/Levels.antt =====
-- The texts of the log levels in pkg/vlogger/log.go, and their JSON.
use Prim.Native.Char.{Char, code}
use f5_ipam_ctlr.Prelude.{
  Bool, Option, String, append, arith, chr, false, if◌then◌else◌, ltb, negsuc, none, pos, refl,
  some, str_beq, str_beq_iff, string_eq, suc, true, zero, ℤ, ◌&&◌, ◌==◌, ◌↔◌, ◌≡◌,
}
use f5_ipam_ctlr.Vlogger.{ll_loglevel_size}

-- `String` of a `LogLevel`
unfoldable pub level_string : ℤ → String
level_string (pos zero) = "debug"
level_string (pos (suc zero)) = "info"
level_string (pos (suc (suc zero))) = "warning"
level_string (pos (suc (suc (suc zero)))) = "error"
level_string (pos (suc (suc (suc (suc zero))))) = "critical"
level_string (pos (suc (suc (suc (suc (suc n)))))) = "invalid"
level_string (negsuc n) = "invalid"

-- The lower-case letter at the place of a capital; `beyond` is `unicode.ToLower` outside ASCII.
unfoldable pub lower_char : (Char → Char) → String → String → Char → Char
lower_char beyond String.[] lows c = if ltb (code c) 128 then c else beyond c
lower_char beyond (String.◌∷◌ u caps) String.[] c = if ltb (code c) 128 then c else beyond c
lower_char beyond (String.◌∷◌ u caps) (String.◌∷◌ l lows) c =
    if chr c == chr u then l else lower_char beyond caps lows c

-- `strings.ToLower`
unfoldable pub to_lower : (Char → Char) → String → String
unfolding lower_char
to_lower beyond String.[] = String.[]
to_lower beyond (String.◌∷◌ c s) =
    String.◌∷◌ (lower_char beyond "ABCDEFGHIJKLMNOPQRSTUVWXYZ" "abcdefghijklmnopqrstuvwxyz" c)
      (to_lower beyond s)

-- The `switch` of `NewLogLevel`.
unfoldable pub level_named : String → Option ℤ
level_named s =
    if s == ""
    then none
    else (if s == "debug"
        then some (pos 0)
        else (if s == "info"
            then some (pos 1)
            else (if s == "warning"
                then some (pos 2)
                else (if s == "error"
                    then some (pos 3)
                    else (if s == "critical" then some (pos 4) else none)))))

-- `NewLogLevel`
unfoldable pub new_log_level : (Char → Char) → String → Option ℤ
unfolding to_lower level_named
new_log_level beyond s = level_named (to_lower beyond s)

-- `MarshalJSON`
unfoldable pub marshal_json : ℤ → String
unfolding level_string append
marshal_json ll = append "\"" (append (level_string ll) "\"")

unfoldable pub trim_left : String → String → String
trim_left cut String.[] = String.[]
trim_left cut (String.◌∷◌ c s) = if chr c == cut then trim_left cut s else String.◌∷◌ c s

unfoldable pub trim_right : String → String → String
trim_right cut String.[] = String.[]
trim_right cut (String.◌∷◌ c s) =
    let rest = trim_right cut s in
    if chr c == cut && rest == "" then String.[] else String.◌∷◌ c rest

-- `UnmarshalJSON`: the level afterwards, and whether there is an error. `strings.Trim` cuts a
-- character off at both ends.
unfoldable pub unmarshal_json : (Char → Char) → ℤ → String → ℤ × Bool
unfolding trim_left trim_right new_log_level
unmarshal_json beyond ll bytes =
    elim (new_log_level beyond (trim_right "\"" (trim_left "\"" bytes))) [
      | none ↦ (ll, true)
      | some newll ↦ (newll, false)
    ]

-- LL_MIN_LEVEL to LL_MAX_LEVEL.
abbrev pub is_level : ℤ → Bool
is_level (pos n) = ltb n ll_loglevel_size
is_level (negsuc n) = false

-- UnmarshalJSON reads back what MarshalJSON writes for the five levels; for any other number it
-- reports an error and leaves the level as it was.
pub unmarshal_json-marshal_json :
    (beyond : Char → Char) (old ll : ℤ)
    → unmarshal_json beyond old (marshal_json ll)
      ≡ (if is_level ll then (ll, false) else (old, true))
unfolding unmarshal_json marshal_json str_beq
unmarshal_json-marshal_json beyond old (pos zero) = refl
unmarshal_json-marshal_json beyond old (pos (suc zero)) = refl
unmarshal_json-marshal_json beyond old (pos (suc (suc zero))) = refl
unmarshal_json-marshal_json beyond old (pos (suc (suc (suc zero)))) = refl
unmarshal_json-marshal_json beyond old (pos (suc (suc (suc (suc zero))))) = refl
unmarshal_json-marshal_json beyond old (pos (suc (suc (suc (suc (suc n)))))) = ground arith
unmarshal_json-marshal_json beyond old (negsuc n) = refl

level_named_sound :
    (s : String) (ll : ℤ) → level_named s ≡ some ll → (is_level ll ≡ true) × (level_string ll ≡ s)
unfolding level_named level_string
level_named_sound s ll h = ground (
  arith,
  str_beq_iff s "debug",
  str_beq_iff s "info",
  str_beq_iff s "warning",
  str_beq_iff s "error",
  str_beq_iff s "critical",
)

level_named_complete : (ll : ℤ) → is_level ll ≡ true → level_named (level_string ll) ≡ some ll
unfolding level_named level_string str_beq
level_named_complete (pos zero) h = refl
level_named_complete (pos (suc zero)) h = refl
level_named_complete (pos (suc (suc zero))) h = refl
level_named_complete (pos (suc (suc (suc zero)))) h = refl
level_named_complete (pos (suc (suc (suc (suc zero))))) h = refl
level_named_complete (pos (suc (suc (suc (suc (suc n)))))) h = absurd (ground arith)
level_named_complete (negsuc n) h = cc

-- NewLogLevel returns a level exactly if the text, in lower case, is what String writes for it.
pub new_log_level_iff :
    (beyond : Char → Char) (s : String) (ll : ℤ)
    → (new_log_level beyond s ≡ some ll)
      ↔ ((is_level ll ≡ true) × (level_string ll ≡ to_lower beyond s))
unfolding new_log_level
new_log_level_iff beyond s ll =
    (λ h. level_named_sound (to_lower beyond s) ll h, λ h. rw (← h.1) (level_named_complete ll h.0))
