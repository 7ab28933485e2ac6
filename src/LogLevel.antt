-- ===== src/LogLevel.antt =====
-- pkg/define/loglevel.go: the levels of the virtual machine's log and their names.
use ovm_next.Base.{Text, codes, ◌==◌, ℕ, eqb, if◌then◌else◌, ◌≡◌, refl}

pub data Level : Type 0 where
  off error warn info debug trace : Level

-- An `int32`; a value that is no constant has the name of `OFF`.
abbrev pub level_number : Level → ℕ
level_number Level.off = 0
level_number Level.error = 1
level_number Level.warn = 2
level_number Level.info = 3
level_number Level.debug = 4
level_number Level.trace = 5

-- `Loglevel.String`
unfoldable pub string_of : ℕ → Text
string_of l =
    if eqb l 0
    then codes "OFF"
    else if eqb l 1
    then codes "ERROR"
    else if eqb l 2
    then codes "WARN"
    else if eqb l 4
    then codes "DEBUG"
    else if eqb l 5
    then codes "TRACE"
    else if eqb l 3
    then codes "INFO"
    else codes "OFF"

-- `LogLevelStr2Type`
unfoldable pub log_level_str2_type : Text → Level
log_level_str2_type str =
    if str == codes "OFF"
    then Level.off
    else if str == codes "ERROR"
    then Level.error
    else if str == codes "WARN"
    then Level.warn
    else if str == codes "DEBUG"
    then Level.debug
    else if str == codes "TRACE"
    then Level.trace
    else if str == codes "INFO"
    then Level.info
    else Level.off

-- Every level is read back from its name.
pub log_level_str2_type-string_of :
    (l : Level) → log_level_str2_type (string_of (level_number l)) ≡ l
unfolding log_level_str2_type string_of ◌==◌
log_level_str2_type-string_of Level.off = refl
log_level_str2_type-string_of Level.error = refl
log_level_str2_type-string_of Level.warn = refl
log_level_str2_type-string_of Level.info = refl
log_level_str2_type-string_of Level.debug = refl
log_level_str2_type-string_of Level.trace = refl
