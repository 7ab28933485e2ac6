-- ===== src/Session/Serving.antt =====
-- pkg/librevm/vm.go: the built-in ssh agent, which runs where a forwarding rule leads to it.
use ovm_next.Base.{
  Text, ◌==◌, if◌then◌else◌, Bool, true, false, List, [], none, some, Result, ok, err, ◌≡◌, refl,
  sym, ap, ◌∙◌, subst, inl, inr, Bool-cases, Lacks, trim_space, ℕ, eqb, eqb_iff, arith, ◌∷◌,
}
use ovm_next.Base.{>>=-eq-ok}
use ovm_next.Forward.Rules.{Rules, lookup}
use ovm_next.Forward.Parse.{ParseError, parse_rules, colon}
use ovm_next.Forward.Parse.RoundTrip.{IsSocketPath, socket_path}
use ovm_next.Forward.Merge.{Merged, merge_auto_rule, agent_guest_socket}
use ovm_next.Forward.Merge.Laws.{merge_auto_rule-IsMerge}
use ovm_next.Session.Setup.{Session, agent_socket, configure_agent_forward, with_agent, with_merged}

-- How the rules are merged, if they can be read.
merged_rules :
    (specs : List Text) (m : Merged) (socket : Text)
    → IsSocketPath agent_guest_socket
    → Lacks colon agent_guest_socket
    → IsSocketPath socket
    → merge_auto_rule specs agent_guest_socket socket ≡ ok m
    → (rules : Rules) × (parse_rules m.specs ≡ ok rules)
      × (m.should_start ≡ true → lookup agent_guest_socket rules ≡ some socket)
unfolding merge_auto_rule
merged_rules specs m socket g lacks h e =
    let (rules, parsed, _) = >>=-eq-ok (parse_rules specs) _ e in
    let (m', rules', e', merge) =
      merge_auto_rule-IsMerge specs rules agent_guest_socket socket g lacks h parsed in
    let same : m' ≡ m = (let both = sym e' ∙ e in cc) in
    (
      rules',
      subst (λ x. parse_rules x.specs ≡ ok rules') same merge.parsed,
      λ starts. merge.starts.0 (ap (λ x. x.should_start) same ∙ starts),
    )

agent_guest_socket-IsSocketPath : IsSocketPath agent_guest_socket
unfolding trim_space
agent_guest_socket-IsSocketPath = socket_path _ refl

is_absent : ℕ → Text → Bool
is_absent c [] = true
is_absent c (d ∷ s) = if eqb d c then false else is_absent c s

Lacks-is_absent : (c : ℕ) (s : Text) → is_absent c s ≡ true → Lacks c s
unfolding is_absent
Lacks-is_absent c [] h = tt
Lacks-is_absent c (d ∷ s) h = elim (Bool-cases (eqb d c)) [
  | inl same ↦ absurd (let bad = rw same at h in cc)
  | inr other ↦ (ground (arith, eqb_iff d c), Lacks-is_absent c s (rw other at h))
]

agent_guest_socket-Lacks : Lacks colon agent_guest_socket
unfolding is_absent
agent_guest_socket-Lacks = Lacks-is_absent colon agent_guest_socket refl

module _ {W : Type 0} where
  -- An agent that is to be started is one that the rules of its session forward.
  abbrev IsServing : Session W → Type 0
  IsServing vm =
      (socket : Text)
      → vm.agent ≡ some socket
      → (rules : Rules) → parse_rules vm.cfg.forward_unix ≡ ok rules
      → lookup agent_guest_socket rules ≡ some socket

  with_agent-IsServing :
      (vm : Session W) (m : Merged) (rules : Rules)
      → vm.agent ≡ none
      → parse_rules m.specs ≡ ok rules
      → (m.should_start ≡ true
          → lookup agent_guest_socket rules ≡ some (agent_socket vm.session_dir))
      → IsServing (with_agent vm m)
  with_agent-IsServing vm m rules idle parsed serves socket agent rules' parsed' =
      elim (Bool-cases m.should_start) [
        | inl starts ↦
            let same : rules ≡ rules' = (let both = sym parsed ∙ parsed' in cc) in
            let socket_is : agent_socket vm.session_dir ≡ socket =
              (let h = rw starts at agent in cc) in
            subst (λ rs. lookup agent_guest_socket rs ≡ some socket) same
              (serves starts ∙ ap some socket_is)
        | inr still ↦ absurd (let h = sym idle ∙ rw still at agent in cc)
      ]

  with_merged-IsServing :
      (vm vm' : Session W)
      → vm.agent ≡ none
      → IsSocketPath (agent_socket vm.session_dir)
      → (r : Result ParseError Merged)
      → merge_auto_rule vm.cfg.forward_unix agent_guest_socket (agent_socket vm.session_dir) ≡ r
      → with_merged vm r ≡ ok vm'
      → IsServing vm'
  with_merged-IsServing vm vm' idle path (ok m) merged e =
      let (rules, parsed, serves) =
        merged_rules vm.cfg.forward_unix m (agent_socket vm.session_dir)
          agent_guest_socket-IsSocketPath agent_guest_socket-Lacks path merged in
      let same : with_agent vm m ≡ vm' = cc in
      subst IsServing same (with_agent-IsServing vm m rules idle parsed serves)
  with_merged-IsServing vm vm' idle path (err x) merged e = absurd cc

  -- The agent that `configureOOSSHAgentForward` sets is one that the rules forward.
  pub configure_agent_forward-IsServing :
      (upstream : Text) (vm vm' : Session W)
      → vm.agent ≡ none
      → IsSocketPath (agent_socket vm.session_dir)
      → configure_agent_forward upstream vm ≡ ok vm'
      → IsServing vm'
  unfolding configure_agent_forward
  configure_agent_forward-IsServing upstream vm vm' idle path e =
      elim (Bool-cases (upstream == [])) [
        | inl off ↦
            let same : vm ≡ vm' = (let h = rw off at e in cc) in
            subst IsServing same (λ socket agent. absurd (let h = sym idle ∙ agent in cc))
        | inr on ↦ with_merged-IsServing vm vm' idle path _ refl (rw on at e)
      ]
