-- ===== src/Management/ExecLaws.antt =====
-- What a client of the command streams gets.
use ovm_next.Base.{
  Text, is_empty, if◌then◌else◌, Bool, true, false, List, [], ◌∷◌, ◌++◌, append_assoc, append-nil,
  Option, none, some, ◌≡◌, refl, sym, ap, ◌∙◌, subst, All, Bool-cases, inl, inr,
}
use ovm_next.Management.Exec.{
  Stream, stdout, stderr, same_stream, Event, line, completed, failure, fits, Exec, start_exec,
  ending, Step, cancel, Reachable,
}

-- The lines of a stream among the events.
pub taken : Stream → List Event → List Text
taken s [] = []
taken s (line t text ∷ events) = if same_stream t s then text ∷ taken s events else taken s events
taken s (completed ∷ events) = taken s events
taken s (failure e ∷ events) = taken s events

taken-append : (s : Stream) (xs ys : List Event) → taken s (xs ++ ys) ≡ taken s xs ++ taken s ys
unfolding taken
taken-append s [] ys = refl
taken-append s (line t text ∷ xs) ys = elim (Bool-cases (same_stream t s)) [
  | inl same ↦ rw same (ap (λ l. text ∷ l) (taken-append s xs ys))
  | inr other ↦ rw other (taken-append s xs ys)
]
taken-append s (completed ∷ xs) ys = taken-append s xs ys
taken-append s (failure e ∷ xs) ys = taken-append s xs ys

-- The end was published, behind all else.
pub data Ends : Exec → Type 0 where
  ends :
      {x : Exec} (r : Option Text) (before : List Event)
      → x.returned ≡ some r
      → x.published ≡ before ++ ending r ∷ []
      → Ends x

taken-ending : (s : Stream) (r : Option Text) → taken s (ending r ∷ []) ≡ []
unfolding taken
taken-ending s none = refl
taken-ending s (some e) = refl

abbrev pub Fits : List Text → Type 0
Fits = All (λ text. fits text ≡ true)

Fits-inside :
    (before rest all : List Text) (text : Text)
    → before ++ text ∷ rest ≡ all
    → Fits all
    → fits text ≡ true
Fits-inside [] rest all text e h = let (first, others) = subst Fits (sym e) h in first
Fits-inside (b ∷ before) rest all text e h =
    let (first, others) = subst Fits (sym e) h in
    Fits-inside before rest (before ++ text ∷ rest) text refl others

is_empty-eq : (xs : List Text) → is_empty xs ≡ true → xs ≡ []
is_empty-eq [] h = refl
is_empty-eq (x ∷ xs) h = absurd cc

module _ (lines : Stream → List Text) (terminated : Stream → Bool) where
  -- The invariant of a stream.
  pub record IsSound (s : Stream) (x : Exec) : Type 0 where
    pub prefix : (rest : List Text) × (taken s x.published ++ rest ≡ lines s)
    pub open_order : x.scanning s ≡ true → taken s x.published ++ x.lines s ≡ lines s
    pub fitting : Fits (lines s) → taken s x.published ++ x.lines s ≡ lines s
    pub whole : x.cancelled ≡ false → x.scanning s ≡ false → Fits (lines s) → x.lines s ≡ []

  pub record IsEnded (x : Exec) : Type 0 where
    pub running : x.returned ≡ none → x.cancelled ≡ false
    pub success : x.returned ≡ some none → x.cancelled ≡ false
    pub last : x.finished ≡ true → Ends x
    pub stopped : x.finished ≡ true → (s : Stream) → x.scanning s ≡ false

  -- What is published of each stream is the start of its lines, in order and once; where a command
  -- succeeds whose lines all fit, it is all of them; and the end is behind all else.
  pub record IsFaithful (x : Exec) : Type 0 where
    pub in_order : (s : Stream) → (rest : List Text) × (taken s x.published ++ rest ≡ lines s)
    pub complete :
        x.finished ≡ true
        → x.returned ≡ some none
        → (s : Stream) → Fits (lines s)
        → taken s x.published ≡ lines s
    pub last : x.finished ≡ true → Ends x

  start-IsSound : (s : Stream) → IsSound s (start_exec lines terminated)
  unfolding taken
  start-IsSound s = record {
    prefix = (lines s, refl);
    open_order = λ _. refl;
    fitting = λ _. refl;
    whole = λ _ off _. absurd cc;
  }

  -- A stream that a step leaves alone
  same-IsSound :
      (s : Stream) (x y : Exec)
      → taken s y.published ≡ taken s x.published
      → y.lines s ≡ x.lines s
      → y.scanning s ≡ x.scanning s
      → (y.cancelled ≡ false → x.cancelled ≡ false)
      → IsSound s x
      → IsSound s y
  same-IsSound s x y p l c k h = record {
    prefix = (h.prefix.0, rw p h.prefix.1);
    open_order = λ on. rw (p, l) (h.open_order (sym c ∙ on));
    fitting = λ f. rw (p, l) (h.fitting f);
    whole = λ n off f. l ∙ h.whole (k n) (sym c ∙ off) f;
  }

  taken-other :
      (xs : List Event) (s : Stream) (e : Event)
      → taken s (e ∷ []) ≡ []
      → taken s (xs ++ e ∷ []) ≡ taken s xs
  taken-other xs s e h = rw (taken-append s xs (e ∷ []), h) (append-nil (taken s xs))

  taken-line : (s : Stream) (text : Text) → taken s (line s text ∷ []) ≡ text ∷ []
  unfolding taken
  taken-line stdout text = refl
  taken-line stderr text = refl

  scanned-IsSound :
      (s : Stream) (text : Text) (rest : List Text) (x y : Exec)
      → x.scanning s ≡ true
      → x.lines s ≡ text ∷ rest
      → taken s y.published ≡ taken s x.published ++ text ∷ []
      → y.lines s ≡ rest
      → y.scanning s ≡ x.scanning s
      → IsSound s x
      → IsSound s y
  scanned-IsSound s text rest x y on e p l c h =
      let now =
        ap (λ r. taken s y.published ++ r) l
        ∙ ap (λ r. r ++ rest) p
        ∙ append_assoc (taken s x.published) (text ∷ []) rest
        ∙ ap (λ r. taken s x.published ++ r) (sym e)
        ∙ h.open_order on in
      record {
        prefix = (y.lines s, now);
        open_order = λ _. now;
        fitting = λ _. now;
        whole = λ _ off _. absurd (let bad = sym on ∙ sym c ∙ off in cc);
      }

  -- A scanner that stops where a line does not fit
  overrun-IsSound :
      (s : Stream) (text : Text) (rest : List Text) (x y : Exec)
      → x.scanning s ≡ true
      → x.lines s ≡ text ∷ rest
      → fits text ≡ false
      → y.published ≡ x.published
      → y.scanning s ≡ false
      → IsSound s x
      → IsSound s y
  overrun-IsSound s text rest x y on e large p off h = record {
    prefix = (h.prefix.0, rw p h.prefix.1);
    open_order = λ on'. absurd (let bad = sym off ∙ on' in cc);
    fitting = λ f. absurd (impossible f);
    whole = λ _ _ f. absurd (impossible f);
  }
    where
      impossible : Fits (lines s) → ⊥
      impossible f =
          let order = ap (λ r. taken s x.published ++ r) (sym e) ∙ h.open_order on in
          let bad = sym large ∙ Fits-inside (taken s x.published) rest (lines s) text order f in cc

  closed-IsSound :
      (s : Stream) (x y : Exec)
      → (x.cancelled ≡ false → x.lines s ≡ [])
      → y.published ≡ x.published
      → y.lines s ≡ x.lines s
      → y.scanning s ≡ false
      → y.cancelled ≡ x.cancelled
      → IsSound s x
      → IsSound s y
  closed-IsSound s x y empty p l off c h = record {
    prefix = (h.prefix.0, rw p h.prefix.1);
    open_order = λ on. absurd (let bad = sym off ∙ on in cc);
    fitting = λ f. rw (p, l) (h.fitting f);
    whole = λ n _ _. l ∙ empty (sym c ∙ n);
  }

  keep :
      (s : Stream) (x y : Exec)
      → taken s y.published ≡ taken s x.published
      → (y.lines s ≡ x.lines s) × (y.scanning s ≡ x.scanning s)
      → (y.cancelled ≡ x.cancelled)
      → IsSound s x
      → IsSound s y
  keep s x y p (l, c) k h = same-IsSound s x y p l c (λ n. sym k ∙ n) h

  Step-IsSound : {x y : Exec} → Step x y → IsEnded x → (t : Stream) → IsSound t x → IsSound t y
  unfolding taken
  Step-IsSound (Step.scan x stdout text rest on e small) n stdout h =
      scanned-IsSound stdout text rest x _ on e (taken-append stdout x.published _) refl refl h
  Step-IsSound (Step.scan x stdout text rest on e small) n stderr h =
      keep stderr x _ (taken-other x.published stderr (line stdout text) refl) (refl, refl) refl h
  Step-IsSound (Step.scan x stderr text rest on e small) n stderr h =
      scanned-IsSound stderr text rest x _ on e (taken-append stderr x.published _) refl refl h
  Step-IsSound (Step.scan x stderr text rest on e small) n stdout h =
      keep stdout x _ (taken-other x.published stdout (line stderr text) refl) (refl, refl) refl h
  Step-IsSound (Step.overflow x stdout text rest on e large) n stdout h =
      overrun-IsSound stdout text rest x _ on e large refl refl h
  Step-IsSound (Step.overflow x stdout text rest on e large) n stderr h =
      keep stderr x _ refl (refl, refl) refl h
  Step-IsSound (Step.overflow x stderr text rest on e large) n stderr h =
      overrun-IsSound stderr text rest x _ on e large refl refl h
  Step-IsSound (Step.overflow x stderr text rest on e large) n stdout h =
      keep stdout x _ refl (refl, refl) refl h
  Step-IsSound (Step.close x stdout r on e empty) n stdout h =
      closed-IsSound stdout x _ empty refl refl refl refl h
  Step-IsSound (Step.close x stdout r on e empty) n stderr h =
      keep stderr x _ refl (refl, refl) refl h
  Step-IsSound (Step.close x stderr r on e empty) n stderr h =
      closed-IsSound stderr x _ empty refl refl refl refl h
  Step-IsSound (Step.close x stderr r on e empty) n stdout h =
      keep stdout x _ refl (refl, refl) refl h
  Step-IsSound (Step.exit x r running done) n t h =
      same-IsSound t x _ refl refl refl (λ _. n.running running) h
  Step-IsSound (Step.finish x r stopped returned open_) n t h =
      keep t x _ (taken-other x.published t (ending r) (taken-ending t r)) (refl, refl) refl h

  unfinished : (x : Exec) → x.returned ≡ none → Ends x → ⊥
  unfinished x running (ends r before e k) = let bad = sym running ∙ e in cc

  Step-IsEnded : {x y : Exec} → Step x y → IsEnded x → IsEnded y
  Step-IsEnded (Step.scan x s text rest on e small) h = record {
    running = h.running;
    success = h.success;
    last = λ f. absurd (let bad = sym (h.stopped f s) ∙ on in cc);
    stopped = h.stopped;
  }
  Step-IsEnded (Step.overflow x s text rest on e large) h = record {
    running = h.running;
    success = h.success;
    last = λ f. absurd (let bad = sym (h.stopped f s) ∙ on in cc);
    stopped = λ f. absurd (let bad = sym (h.stopped f s) ∙ on in cc);
  }
  Step-IsEnded (Step.close x s r on e empty) h = record {
    running = h.running;
    success = h.success;
    last = λ f. absurd (let bad = sym (h.stopped f s) ∙ on in cc);
    stopped = λ f. absurd (let bad = sym (h.stopped f s) ∙ on in cc);
  }
  Step-IsEnded (Step.exit x r running done) h = record {
    running = λ _. refl;
    success = λ _. refl;
    last = λ f. absurd (unfinished x running (h.last f));
    stopped = λ f. h.stopped f;
  }
  Step-IsEnded (Step.finish x r stopped returned open_) h = record {
    running = h.running;
    success = h.success;
    last = λ _. ends r x.published returned refl;
    stopped = λ _. stopped;
  }

  Reachable-IsEnded : {x : Exec} → Reachable lines terminated x → IsEnded x
  Reachable-IsEnded Reachable.begin = record {
    running = λ _. refl;
    success = λ _. refl;
    last = λ f. absurd cc;
    stopped = λ f. absurd cc;
  }
  Reachable-IsEnded (Reachable.step r s) = Step-IsEnded s (Reachable-IsEnded r)
  Reachable-IsEnded (Reachable.disturb r (cancel x e running)) =
      let h = Reachable-IsEnded r in
      record {
        running = λ n. absurd cc;
        success = λ n. absurd cc;
        last = λ f. absurd (unfinished x running (h.last f));
        stopped = λ f. h.stopped f;
      }

  Reachable-IsSound : {x : Exec} → Reachable lines terminated x → (t : Stream) → IsSound t x
  Reachable-IsSound Reachable.begin t = start-IsSound t
  Reachable-IsSound (Reachable.step r s) t =
      Step-IsSound s (Reachable-IsEnded r) t (Reachable-IsSound r t)
  Reachable-IsSound (Reachable.disturb r (cancel x e running)) t =
      same-IsSound t x _ refl refl refl (λ _. (Reachable-IsEnded r).running running)
        (Reachable-IsSound r t)

  -- However the goroutines of a command stream interleave, and whether or not its request is
  -- cancelled: of each stream the start of its lines is published, in order and each once; a command
  -- is reported as done only behind all lines of a stream whose lines are all shorter than the buffer
  -- of its scanner; and nothing is published behind the end.
  pub Reachable-IsFaithful : {x : Exec} → Reachable lines terminated x → IsFaithful x
  Reachable-IsFaithful {x} r =
      let n = Reachable-IsEnded r in
      record {
        in_order = λ s. (Reachable-IsSound r s).prefix;
        complete = λ f e s short.
            let h = Reachable-IsSound r s in
            let none_left = h.whole (n.success e) (n.stopped f s) short in
            sym (append-nil (taken s x.published))
            ∙ ap (λ l. taken s x.published ++ l) (sym none_left)
            ∙ h.fitting short;
        last = n.last;
      }
