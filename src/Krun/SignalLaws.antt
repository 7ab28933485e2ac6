-- ===== src/Krun/SignalLaws.antt =====
-- A machine that the host stops is synced and powered off.
use ovm_next.Base.{
  Text, codes, ◌==◌, true, [], ◌∷◌, ◌++◌, some, split, split-append, equal_fold, Lacks, ◌≡◌, refl,
  ap, sym, ◌∙◌,
}
use mathlib.Core.List.{reverse, reverse-append, reverse-reverse}
use ovm_next.Krun.Signals.{
  Json, send_signal, stop, terminate, kill_all, kill_self, sync, power_off, signal_of_name,
  drop_last_return, scan_lines, handle_lines, wait_and_shutdown, receive,
}

-- The documented behaviour of `encoding/json`: fields are matched without regard to case, and an
-- object is written without a line break and ends in a brace.
pub record IsJson (json : Json) : Type 0 where
  pub reads :
      (field other value : Text)
      → equal_fold field other ≡ true
      → json.decode other (json.encode field value) ≡ some value
  pub one_line : (field value : Text) → Lacks b'\n' (json.encode field value)
  pub braced : (field value : Text) → (body : Text) × (json.encode field value ≡ body ++ b'}' ∷ [])

unbroken : (body : Text) → drop_last_return (reverse (body ++ b'}' ∷ [])) ≡ body ++ b'}' ∷ []
unbroken body =
    rw (reverse-append body (b'}' ∷ []))
      (reverse-append (b'}' ∷ []) (reverse body) ∙ rw (reverse-reverse body) refl)

-- A text in braces without a line break is one line.
scan_lines-braced :
    (s body : Text) → s ≡ body ++ b'}' ∷ [] → Lacks b'\n' s → scan_lines (s ++ b'\n' ∷ []) ≡ s ∷ []
unfolding scan_lines split
scan_lines-braced s body e lacks =
    rw (split-append b'\n' s [] lacks)
      (ap (λ x. drop_last_return (reverse x) ∷ []) e ∙ ap (λ x. x ∷ []) (unbroken body ∙ sym e))

-- Where JSON is written and read as documented and the pipe is there: stopping the machine makes the
-- agent send SIGTERM to all processes and to itself, sync the disks, and only then power off.
pub receive-stop :
    (json : Json)
    → IsJson json
    → receive json (stop json true)
      ≡ kill_all terminate ∷ kill_self terminate ∷ sync ∷ power_off ∷ []
unfolding receive stop send_signal handle_lines signal_of_name wait_and_shutdown ◌==◌ equal_fold
receive-stop json laws =
    let text = json.encode (codes "SignalName") (codes "terminated") in
    let (body, e) = laws.braced (codes "SignalName") (codes "terminated") in
    let line =
      scan_lines-braced text body e (laws.one_line (codes "SignalName") (codes "terminated")) in
    rw (line, laws.reads (codes "SignalName") (codes "signalName") (codes "terminated") refl) refl
