-- ===== src/Management/Exec.antt =====
-- `executeCommand` and `executeLegacyCommand` of pkg/service/management/server.go, behind the dialling
-- of the ssh client: the command in the guest, the two scanners that publish its lines, and the report
-- of its end. The goroutines interleave freely. A command returns by itself once the scanners have
-- taken all its bytes from the pipes; they may still have lines to publish.
use ovm_next.Base.{
  ℕ, zero, suc, ltb, eqb, not, is_empty, Text, codes, length, if◌then◌else◌, Bool, true, false,
  ◌&&◌, List, [], ◌∷◌, ◌++◌, Option, none, some, ◌≡◌,
}

pub data Stream : Type 0 where
  stdout stderr : Stream

abbrev pub same_stream : Stream → Stream → Bool
same_stream stdout stdout = true
same_stream stderr stderr = true
same_stream _ _ = false

abbrev pub update : {A : Type 0} → Stream → A → (Stream → A) → Stream → A
update s x f t = if same_stream s t then x else f t

-- What is published: a line, or one of the two ends.
pub data Event : Type 0 where
  line : Stream → Text → Event
  completed : Event
  failure : Text → Event

-- The two handlers, which differ in what they publish.
pub data Style : Type 0 where
  exec legacy : Style

-- The type and the content of a message of the event stream
unfoldable pub message : Style → Event → Text × Text
message exec (line stdout text) = (codes "out", text)
message exec (line stderr text) = (codes "error", text)
message legacy (line s text) = (codes "out", text)
message style completed = (codes "done", codes "done")
message exec (failure text) = (codes "error", codes "wait: " ++ text)
message legacy (failure text) = (codes "error", text)

-- `sc.Buffer(..., 1<<20)`: what the buffer of a scanner can grow to, in bytes
abbrev pub buffer_size : ℕ
buffer_size = 1048576

-- A line that is found in the buffer, with the line break behind it or at the end of the stream
abbrev pub fits : Text → Bool
fits text = ltb (length text) buffer_size

unfoldable pub skip : ℕ → Text → Text
skip zero text = text
skip (suc n) [] = []
skip (suc n) (c ∷ text) = skip n text

-- What is left of the lines behind a line that does not fit: the scanner takes a full buffer of its
-- bytes and stops. Nothing is left of a last line of just that size that has no line break.
unfoldable pub beyond : Bool → Text → List Text → List Text
beyond terminated text rest =
    if is_empty rest && not terminated && eqb (length text) buffer_size
    then []
    else skip buffer_size text ∷ rest

-- Whether a scanner takes all of these lines from its pipe.
unfoldable pub readable : Bool → List Text → Bool
readable terminated [] = true
readable terminated (text ∷ rest) =
    let others = readable terminated rest in
    if fits text then others else is_empty (beyond terminated text rest)

pub record Exec : Type 0 where
  -- The lines of the command that are not published, and whether there is a line break behind the last.
  pub lines : Stream → List Text
  pub terminated : Stream → Bool
  pub scanning : Stream → Bool
  -- What the command returned: an error, or none; and whether its context had ended.
  pub returned : Option (Option Text)
  pub cancelled : Bool
  pub published : List Event
  pub finished : Bool

abbrev pub start_exec : (Stream → List Text) → (Stream → Bool) → Exec
start_exec lines terminated = record {
  lines = lines;
  terminated = terminated;
  scanning = λ s. true;
  returned = none;
  cancelled = false;
  published = [];
  finished = false;
}

-- Nothing of the stream is left in its pipe, or will be.
abbrev pub drained : Stream → Exec → Bool
drained s x = if x.scanning s then readable (x.terminated s) (x.lines s) else is_empty (x.lines s)

abbrev pub ending : Option Text → Event
ending none = completed
ending (some e) = failure e

-- A scanner publishes a line.
abbrev pub publish_line : Stream → Text → List Text → Exec → Exec
publish_line s text rest x = record x {
  lines = update s rest x.lines;
  published = x.published ++ line s text ∷ [];
}

-- A scanner stops at a line that does not fit.
abbrev pub overrun : Stream → Text → List Text → Exec → Exec
overrun s text rest x = record x {
  lines = update s (beyond (x.terminated s) text rest) x.lines;
  scanning = update s false x.scanning;
}

-- A scanner stops at the end of its pipe.
abbrev pub stop_scanning : Stream → Exec → Exec
stop_scanning s x = record x { scanning = update s false x.scanning }

-- The command returns, by itself or because its context has ended.
abbrev pub return_command : Option Text → Bool → Exec → Exec
return_command e cancelled x = record x { returned = some e; cancelled = cancelled }

-- The end is published.
abbrev pub report : Option Text → Exec → Exec
report e x = record x { published = x.published ++ ending e ∷ []; finished = true }

pub data Step : Exec → Exec → Type 0 where
  -- `for sc.Scan() { s.sse.Publish(...) }`
  scan :
      (x : Exec) (s : Stream) (text : Text) (rest : List Text)
      → x.scanning s ≡ true
      → x.lines s ≡ text ∷ rest
      → fits text ≡ true
      → Step x (publish_line s text rest x)
  -- A line that does not fit ends the loop.
  overflow :
      (x : Exec) (s : Stream) (text : Text) (rest : List Text)
      → x.scanning s ≡ true
      → x.lines s ≡ text ∷ rest
      → fits text ≡ false
      → Step x (overrun s text rest x)
  -- The pipe is closed when the command has returned; the scanner publishes what it took before. Of
  -- a command that was cancelled lines may be lost.
  close :
      (x : Exec) (s : Stream) (r : Option Text)
      → x.scanning s ≡ true
      → x.returned ≡ some r
      → (x.cancelled ≡ false → x.lines s ≡ [])
      → Step x (stop_scanning s x)
  -- The command ends by itself, once all that it wrote was taken.
  exit :
      (x : Exec) (r : Option Text)
      → x.returned ≡ none
      → ((s : Stream) → drained s x ≡ true)
      → Step x (return_command r false x)
  -- `wg.Wait()`, and `<-proc.ErrChan`
  finish :
      (x : Exec) (r : Option Text)
      → ((s : Stream) → x.scanning s ≡ false)
      → x.returned ≡ some r
      → x.finished ≡ false
      → Step x (report r x)

-- The context of the request ends, and the command returns its error.
pub data Cancel : Exec → Exec → Type 0 where
  cancel : (x : Exec) (e : Text) → x.returned ≡ none → Cancel x (return_command (some e) true x)

module _ (lines : Stream → List Text) (terminated : Stream → Bool) where
  pub data Reachable : Exec → Type 0 where
    begin : Reachable (start_exec lines terminated)
    step : {x y : Exec} → Reachable x → Step x y → Reachable y
    disturb : {x y : Exec} → Reachable x → Cancel x y → Reachable y

  -- ... in a request that is not cancelled
  pub data Undisturbed : Exec → Type 0 where
    begin : Undisturbed (start_exec lines terminated)
    step : {x y : Exec} → Undisturbed x → Step x y → Undisturbed y
