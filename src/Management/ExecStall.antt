-- ===== src/Management/ExecStall.antt =====
-- A line that is too long for the buffer of a scanner.
use ovm_next.Base.{
  eqb, is_empty, Text, length, Bool, true, false, List, [], ◌∷◌, ◌++◌, none, ◌≡◌, refl, sym, ap,
  ◌∙◌, ◌⊎◌, Bool-cases, inl, inr,
}
use ovm_next.Management.Exec.{
  Stream, stdout, stderr, buffer_size, fits, beyond, readable, Exec, drained, Step, Undisturbed,
}

-- There is more to come behind the first full buffer of a line: its line break, another line, or the
-- rest of the line itself.
abbrev pub Overruns : Bool → Text → List Text → Type 0
Overruns terminated long after =
    (terminated ≡ true) ⊎ (is_empty after ≡ false) ⊎ (eqb (length long) buffer_size ≡ false)

Overruns-beyond :
    (terminated : Bool) (long : Text) (after : List Text)
    → Overruns terminated long after
    → is_empty (beyond terminated long after) ≡ false
unfolding beyond
Overruns-beyond true long after h = elim (Bool-cases (is_empty after)) [
  | inl e ↦ rw e refl
  | inr e ↦ rw e refl
]
Overruns-beyond false long after (inl h) = absurd cc
Overruns-beyond false long after (inr (inl h)) = rw h refl
Overruns-beyond false long after (inr (inr h)) = elim (Bool-cases (is_empty after)) [
  | inl e ↦ rw (e, h) refl
  | inr e ↦ rw e refl
]

beyond_more :
    (terminated : Bool) (text b : Text) (rest : List Text)
    → is_empty (beyond terminated text (b ∷ rest)) ≡ false
unfolding beyond
beyond_more terminated text b rest = refl

-- Lines with such a line are not all taken from the pipe.
readable_overrun :
    (terminated : Bool) (before : List Text) (long : Text) (after : List Text)
    → fits long ≡ false
    → Overruns terminated long after
    → readable terminated (before ++ long ∷ after) ≡ false
unfolding readable
readable_overrun terminated [] long after large h =
    rw large (Overruns-beyond terminated long after h)
readable_overrun terminated (b ∷ before) long after large h = elim (Bool-cases (fits b)) [
  | inl small ↦ rw small (readable_overrun terminated before long after large h)
  | inr big ↦ rw big (more before)
]
  where
    more : (xs : List Text) → is_empty (beyond terminated b (xs ++ long ∷ after)) ≡ false
    more [] = beyond_more terminated b long after
    more (x ∷ xs) = beyond_more terminated b x (xs ++ long ∷ after)

-- The command runs, and the end of its stream is not published: something is left in the pipe of `s`.
pub record IsStalled (s : Stream) (x : Exec) : Type 0 where
  pub running : x.returned ≡ none
  pub unfinished : x.finished ≡ false
  pub left : drained s x ≡ false

scan_left :
    (x : Exec) (s : Stream) (text : Text) (rest : List Text)
    → x.scanning s ≡ true
    → x.lines s ≡ text ∷ rest
    → fits text ≡ true
    → drained s x ≡ false
    → readable (x.terminated s) rest ≡ false
unfolding readable
scan_left x s text rest on e small h = sym (rw (on, e, small) refl) ∙ h

overrun_left :
    (x : Exec) (s : Stream) (text : Text) (rest : List Text)
    → x.scanning s ≡ true
    → x.lines s ≡ text ∷ rest
    → fits text ≡ false
    → drained s x ≡ false
    → is_empty (beyond (x.terminated s) text rest) ≡ false
unfolding readable
overrun_left x s text rest on e large h = sym (rw (on, e, large) refl) ∙ h

Step-left :
    {x y : Exec} (s : Stream)
    → Step x y
    → x.returned ≡ none
    → drained s x ≡ false
    → drained s y ≡ false
Step-left stdout (Step.scan x stdout text rest on e small) n h =
    rw on (scan_left x stdout text rest on e small h)
Step-left stderr (Step.scan x stderr text rest on e small) n h =
    rw on (scan_left x stderr text rest on e small h)
Step-left stdout (Step.scan x stderr text rest on e small) n h = h
Step-left stderr (Step.scan x stdout text rest on e small) n h = h
Step-left stdout (Step.overflow x stdout text rest on e large) n h =
    overrun_left x stdout text rest on e large h
Step-left stderr (Step.overflow x stderr text rest on e large) n h =
    overrun_left x stderr text rest on e large h
Step-left stdout (Step.overflow x stderr text rest on e large) n h = h
Step-left stderr (Step.overflow x stdout text rest on e large) n h = h
Step-left s (Step.close x t r on e empty) n h = absurd (let bad = sym n ∙ e in cc)
Step-left s (Step.exit x r running done) n h = absurd (let bad = sym (done s) ∙ h in cc)
Step-left s (Step.finish x r stopped returned open_) n h = absurd (let bad = sym n ∙ returned in cc)

Step-IsStalled : (s : Stream) {x y : Exec} → Step x y → IsStalled s x → IsStalled s y
Step-IsStalled s (Step.scan x t text rest on e small) h = record {
  running = h.running;
  unfinished = h.unfinished;
  left = Step-left s (Step.scan x t text rest on e small) h.running h.left;
}
Step-IsStalled s (Step.overflow x t text rest on e large) h = record {
  running = h.running;
  unfinished = h.unfinished;
  left = Step-left s (Step.overflow x t text rest on e large) h.running h.left;
}
Step-IsStalled s (Step.close x t r on e empty) h = absurd (let bad = sym h.running ∙ e in cc)
Step-IsStalled s (Step.exit x r running done) h = absurd (let bad = sym (done s) ∙ h.left in cc)
Step-IsStalled s (Step.finish x r stopped returned open_) h =
    absurd (let bad = sym h.running ∙ returned in cc)

-- A command that writes a line of a mebibyte or more, with a line break or anything else behind its
-- first mebibyte: unless its request is cancelled it never returns, and the stream of events never
-- gets its end.
pub Undisturbed-IsStalled :
    (s : Stream) (lines : Stream → List Text) (terminated : Stream → Bool) (before : List Text)
    (long : Text) (after : List Text) {x : Exec}
    → fits long ≡ false
    → Overruns (terminated s) long after
    → lines s ≡ before ++ long ∷ after
    → Undisturbed lines terminated x
    → IsStalled s x
Undisturbed-IsStalled s lines terminated before long after large more e Undisturbed.begin = record {
  running = refl;
  unfinished = refl;
  left =
      ap (readable (terminated s)) e ∙ readable_overrun (terminated s) before long after large more;
}
Undisturbed-IsStalled s lines terminated before long after large more e (Undisturbed.step r st) =
    Step-IsStalled s st (Undisturbed-IsStalled s lines terminated before long after large more e r)
