-- ===== src/Network/SshShellLaws.antt =====
-- A shell gives the terminal and its session back.
use ovm_next.Base.{
  ℕ, Bool, true, false, List, ◌∷◌, Option, none, some, ◌≡◌, refl, ap, ◌∙◌, Bool-cases, inl, inr,
}
use ovm_next.Network.SshClient.{Client, Wire}
use ovm_next.Network.SshShell.{
  Terminal, shell_ended, shell_started, in_raw_mode, with_pty, shell_size, shell_in, shell_with,
}

-- What a shell must not leave behind: a terminal in raw mode, and open sessions.
pub record Held : Type 0 where
  pub raw : Bool
  pub sessions : List ℕ

module _ {W : Type 0} (wire : Wire W) (term : Terminal W) (held : W → Held) where
  -- The documented behaviour of the calls, where the terminal is not in raw mode at first.
  pub record IsTerminal : Type 0 where
    pub opens :
        (c : ℕ) (w w' : W) (s : ℕ)
        → wire.new_session c w ≡ (w', some s)
        → held w' ≡ record (held w) { sessions = s ∷ (held w).sessions }
    pub no_session : (c : ℕ) (w w' : W) → wire.new_session c w ≡ (w', none) → held w' ≡ held w
    pub closes :
        (s : ℕ) (ss : List ℕ) (b : Bool) (w : W)
        → held w ≡ record { raw = b; sessions = s ∷ ss }
        → held (wire.close_session s w) ≡ record { raw = b; sessions = ss }
    pub requests : (s h v : ℕ) (w : W) → held (term.request_pty s h v w).0 ≡ held w
    pub raises :
        (w w' : W) → term.make_raw w ≡ (w', true) → held w' ≡ record (held w) { raw = true }
    pub no_raise : (w w' : W) → term.make_raw w ≡ (w', false) → held w' ≡ held w
    pub restores : (w : W) → held (term.restore w) ≡ record (held w) { raw = false }
    pub starts : (s : ℕ) (w : W) → held (term.start_shell s w).0 ≡ held w
    pub waits : (s : ℕ) (w : W) → held (term.wait s w).0 ≡ held w
    pub signals : (s : ℕ) (w : W) → held (wire.terminate s w) ≡ held w

  module _ (laws : IsTerminal) where
    shell_ended-held : (s : ℕ) (x : W × Option Bool) → held (shell_ended wire term s x).0 ≡ held x.0
    shell_ended-held s (w, none) = laws.signals s w
    shell_ended-held s (w, some true) = refl
    shell_ended-held s (w, some false) = refl

    shell_started-held : (s : ℕ) (x : W × Bool) → held (shell_started wire term s x).0 ≡ held x.0
    shell_started-held s (w, false) = refl
    shell_started-held s (w, true) = shell_ended-held s (term.wait s w) ∙ laws.waits s w

    -- A state of the world that is not in raw mode
    abbrev cooked : List ℕ → Held
    cooked ss = record { raw = false; sessions = ss }

    in_raw_mode-held :
        (s : ℕ) (ss : List ℕ) (w : W) (x : W × Bool)
        → held w ≡ cooked ss
        → term.make_raw w ≡ x
        → held (in_raw_mode wire term s x).0 ≡ cooked ss
    in_raw_mode-held s ss w (v, false) h e = laws.no_raise w v e ∙ h
    in_raw_mode-held s ss w (v, true) h e =
        let after = shell_started-held s (term.start_shell s v) ∙ laws.starts s v in
        laws.restores (shell_started wire term s (term.start_shell s v)).0
        ∙ ap (λ (x : Held). record x { raw = false })
            (after ∙ laws.raises w v e ∙ ap (λ (x : Held). record x { raw = true }) h)

    with_pty-held :
        (s : ℕ) (ss : List ℕ) (x : W × Bool)
        → held x.0 ≡ cooked ss
        → held (with_pty wire term s x).0 ≡ cooked ss
    with_pty-held s ss (w, false) h = h
    with_pty-held s ss (w, true) h = elim (Bool-cases term.is_terminal) [
      | inl yes_ ↦ rw yes_ (in_raw_mode-held s ss w (term.make_raw w) h refl)
      | inr no_ ↦ rw no_ (shell_started-held s (term.start_shell s w) ∙ laws.starts s w ∙ h)
    ]

    shell_in-held :
        (c : ℕ) (ss : List ℕ) (w : W) (x : W × Option ℕ)
        → held w ≡ cooked ss
        → wire.new_session c w ≡ x
        → held (shell_in wire term x).0 ≡ cooked ss
    shell_in-held c ss w (v, none) h e = laws.no_session c w v e ∙ h
    shell_in-held c ss w (v, some s) h e =
        let (width, height) = shell_size wire term v in
        let opened =
          laws.opens c w v s e ∙ ap (λ (x : Held). record x { sessions = s ∷ x.sessions }) h in
        laws.closes s ss false (with_pty wire term s (term.request_pty s height width v)).0 (
          with_pty-held s (s ∷ ss) (term.request_pty s height width v)
            (laws.requests s height width v ∙ opened))

    -- On a terminal that behaves as documented and is not in raw mode: however a shell ends, or
    -- fails to start, the terminal is not in raw mode and just the sessions are open that were open
    -- before.
    pub shell_with-held :
        (c : Client) (ss : List ℕ) (w : W)
        → held w ≡ record { raw = false; sessions = ss }
        → held (shell_with wire term c w).0 ≡ record { raw = false; sessions = ss }
    unfolding shell_with
    shell_with-held c ss w h = elim (Bool-cases c.closed) [
      | inl shut ↦ rw shut h
      | inr open_ ↦ rw open_ (shell_in-held c.conn ss w (wire.new_session c.conn w) h refl)
    ]
