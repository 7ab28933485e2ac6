-- ===== src/Network/SshLaws.antt =====
-- What dialling leaves open.
use ovm_next.Base.{
  Text, ◌==◌, if◌then◌else◌, Bool, true, false, List, [], ◌∷◌, Option, none, some, Bool-cases,
  Result, ok, err, ◌≡◌, refl, ◌∙◌, ℤ, ℕ, inl, inr,
}
use ovm_next.Base.Action.{Action, ◌>>=◌, >>=-eq, continue, pure, of_result}
use ovm_next.Network.HostPort.{AddressError}
use ovm_next.Network.HostServices.{tunnel_target}
use ovm_next.Network.SshClient.{
  Options, default_options, apply_all, Setting, SshError, dial_failed, tunnel_failed,
  handshake_failed, bad_address, Wire, Client, connected, kept, key_at, client_of, dial_direct,
  dial_tunnel, dial_with, dial,
}

module _ {W : Type 0} (wire : Wire W) (opened : W → List ℕ) where
  -- The documented behaviour of the calls, in terms of the connections that are open.
  pub record IsWire : Type 0 where
    pub tcp :
        (a : Text) (d : ℤ) (w w' : W) (c : ℕ)
        → wire.dial_tcp a d w ≡ (w', some c)
        → opened w' ≡ c ∷ opened w
    pub no_tcp :
        (a : Text) (d : ℤ) (w w' : W) → wire.dial_tcp a d w ≡ (w', none) → opened w' ≡ opened w
    pub unix :
        (a : Text) (d : ℤ) (w w' : W) (c : ℕ)
        → wire.dial_unix a d w ≡ (w', some c)
        → opened w' ≡ c ∷ opened w
    pub no_unix :
        (a : Text) (d : ℤ) (w w' : W) → wire.dial_unix a d w ≡ (w', none) → opened w' ≡ opened w
    pub tunnelled :
        (c : ℕ) (h : Text) (p : ℤ) (w : W) → opened (wire.open_tunnel c h p w).0 ≡ opened w
    pub shaken : (c : ℕ) (a u : Text) (w : W) → opened (wire.handshake c a u w).0 ≡ opened w
    pub shut : (c : ℕ) (cs : List ℕ) (w : W) → opened w ≡ c ∷ cs → opened (wire.close_conn c w) ≡ cs

  -- A result holds just the connection that it is; an error holds none.
  abbrev pub IsBalanced : {A : Type 0} → (A → ℕ) → List ℕ → W × Result SshError A → Type 0
  IsBalanced conn before (w, ok a) = opened w ≡ conn a ∷ before
  IsBalanced conn before (w, err e) = opened w ≡ before

  abbrev itself : ℕ → ℕ
  itself c = c

  module _ (laws : IsWire) where
    connected-IsBalanced :
        (e : SshError) (before : List ℕ) (r : W × Option ℕ)
        → ((c : ℕ) → r.1 ≡ some c → opened r.0 ≡ c ∷ before)
        → (r.1 ≡ none → opened r.0 ≡ before)
        → IsBalanced itself before (connected wire e r)
    connected-IsBalanced e before (w, some c) is none_ = is c refl
    connected-IsBalanced e before (w, none) is none_ = none_ refl

    kept-IsBalanced :
        (c : ℕ) (e : SshError) (before : List ℕ) (r : W × Bool)
        → opened r.0 ≡ c ∷ before
        → IsBalanced itself before (kept wire c e r)
    kept-IsBalanced c e before (w, true) h = h
    kept-IsBalanced c e before (w, false) h = laws.shut c before w h

    dial_direct-IsBalanced :
        (a : Text) (d : ℤ) (w : W) → IsBalanced itself (opened w) (dial_direct wire a d w)
    unfolding dial_direct
    dial_direct-IsBalanced a d w =
        connected-IsBalanced dial_failed (opened w) (wire.dial_tcp a d w)
          (λ c e. laws.tcp a d w _ c (λ i. ((wire.dial_tcp a d w).0, e i)))
          (λ e. laws.no_tcp a d w _ (λ i. ((wire.dial_tcp a d w).0, e i)))

    -- A connection on which a second step runs.
    then-IsBalanced :
        {A : Type 0} (conn : A → ℕ) (before : List ℕ) (r : W × Result SshError ℕ)
        (f : ℕ → Action SshError W A)
        → IsBalanced itself before r
        → ((c : ℕ) (w : W) → opened w ≡ c ∷ before → IsBalanced conn before (f c w))
        → IsBalanced conn before (continue r f)
    then-IsBalanced conn before (w, ok c) f h k = k c w h
    then-IsBalanced conn before (w, err e) f h k = h

    tunnel_to :
        (socket : Text) (d : ℤ) (r : Result AddressError (Text × ℤ)) (w : W)
        → IsBalanced itself (opened w) (
            (of_result bad_address r >>= λ target.
            (λ v. connected wire dial_failed (wire.dial_unix socket d v)) >>= λ conn v.
            kept wire conn tunnel_failed (wire.open_tunnel conn target.0 target.1 v))
              w)
    unfolding ◌>>=◌
    tunnel_to socket d (err e) w = refl
    tunnel_to socket d (ok target) w =
        then-IsBalanced itself (opened w) (connected wire dial_failed (wire.dial_unix socket d w)) _
          (connected-IsBalanced dial_failed (opened w) (wire.dial_unix socket d w)
            (λ c e. laws.unix socket d w _ c (λ i. ((wire.dial_unix socket d w).0, e i)))
            (λ e. laws.no_unix socket d w _ (λ i. ((wire.dial_unix socket d w).0, e i))))
          (λ c v h.
            kept-IsBalanced c tunnel_failed (opened w) (wire.open_tunnel c target.0 target.1 v)
              (laws.tunnelled c target.0 target.1 v ∙ h))

    dial_tunnel-IsBalanced :
        (socket a : Text) (d : ℤ) (w : W)
        → IsBalanced itself (opened w) (dial_tunnel wire socket a d w)
    unfolding dial_tunnel
    dial_tunnel-IsBalanced socket a d w = tunnel_to socket d (tunnel_target a) w

    chosen-IsBalanced :
        (o : Options) (a : Text) (b : Bool) (w : W)
        → IsBalanced itself (opened w) (
            (if b
                then dial_direct wire a o.dial_timeout
                else dial_tunnel wire o.tunnel_socket a o.dial_timeout)
              w)
    chosen-IsBalanced o a true w = dial_direct-IsBalanced a o.dial_timeout w
    chosen-IsBalanced o a false w = dial_tunnel-IsBalanced o.tunnel_socket a o.dial_timeout w

    -- Behind the key.
    connecting : Options → Text → Action SshError W Client
    connecting o a =
        (if o.tunnel_socket == []
          then dial_direct wire a o.dial_timeout
          else dial_tunnel wire o.tunnel_socket a o.dial_timeout)
        >>= λ conn.
            (λ w. kept wire conn handshake_failed (wire.handshake conn a o.user w)) >>= λ live.
            pure (client_of wire o live)

    connecting-IsBalanced :
        (o : Options) (a : Text) (w : W) → IsBalanced (λ c. c.conn) (opened w) (connecting o a w)
    unfolding connecting ◌>>=◌
    connecting-IsBalanced o a w =
        then-IsBalanced (λ c. c.conn) (opened w) _ _
          (chosen-IsBalanced o a (o.tunnel_socket == []) w)
          (λ c v h.
            then-IsBalanced (λ x. x.conn) (opened w)
              (kept wire c handshake_failed (wire.handshake c a o.user v)) _
              (kept-IsBalanced c handshake_failed (opened w) (wire.handshake c a o.user v)
                (laws.shaken c a o.user v ∙ h))
              (λ live u k. k))

    with_key-IsBalanced :
        (o : Options) (a : Text) (key : Option Text) (w : W)
        → IsBalanced (λ c. c.conn) (opened w) (continue (key_at wire key w) (λ _. connecting o a))
    with_key-IsBalanced o a none w = refl
    with_key-IsBalanced o a (some key) w = elim (Bool-cases (wire.parse_key key)) [
      | inl good ↦ rw good (connecting-IsBalanced o a w)
      | inr bad ↦ rw bad refl
    ]

    -- On a network that behaves as documented: dialling with whatever options either gives a client
    -- and opens just its connection, or fails and leaves just the connections open that were open
    -- before.
    pub dial-IsBalanced :
        (a : Text) (settings : List Setting) (w : W)
        → IsBalanced (λ c. c.conn) (opened w) (dial wire a settings w)
    unfolding dial_with connecting
    dial-IsBalanced a settings w = go (apply_all settings default_options)
      where
        go : (o : Options) → IsBalanced (λ c. c.conn) (opened w) (dial_with wire o a w)
        go o = elim (Bool-cases (o.private_key_path == [])) [
          | inl empty ↦ rw empty refl
          | inr given ↦
              rw
                (
                  given,
                  >>=-eq (λ v. key_at wire (wire.read_file o.private_key_path v) v)
                      (λ _. connecting o a) w,
                )
                (with_key-IsBalanced o a (wire.read_file o.private_key_path w) w)
        ]
