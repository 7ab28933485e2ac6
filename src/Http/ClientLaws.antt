-- ===== src/Http/ClientLaws.antt =====
-- What sending a request leaves open.
use ovm_next.Base.{
  ℕ, Text, List, ◌∷◌, Option, none, some, Result, ok, err, ◌≡◌, refl, ◌∙◌, Bool-cases, inl, inr,
}
use ovm_next.Base.Action.{Action, continue, ◌>>=◌, >>=-eq}
use ovm_next.Http.Client.{
  Request, Response, Transport, HttpError, build_url, answered, do_request, body_of, do_and_read,
  status_of,
}

module _ {W : Type 0} (net : Transport W) (opened : W → List ℕ) where
  -- The documented behaviour of the transport, in terms of the responses that are open.
  pub record IsTransport : Type 0 where
    pub answers :
        (r : Request) (url : Text) (w w' : W) (response : Response)
        → net.exchange r url w ≡ (w', some response)
        → opened w' ≡ response.id ∷ opened w
    pub fails :
        (r : Request) (url : Text) (w w' : W)
        → net.exchange r url w ≡ (w', none)
        → opened w' ≡ opened w
    pub reads : (id : ℕ) (w : W) → opened (net.read_body id w).0 ≡ opened w
    pub shut :
        (id : ℕ) (ids : List ℕ) (w : W) → opened w ≡ id ∷ ids → opened (net.close_body id w) ≡ ids

  -- `Do` gives an open response, or leaves nothing open.
  abbrev IsOpen : List ℕ → W × Result HttpError Response → Type 0
  IsOpen before (w, ok response) = opened w ≡ response.id ∷ before
  IsOpen before (w, err e) = opened w ≡ before

  module _ (laws : IsTransport) where
    answered-IsOpen :
        (before : List ℕ) (x : W × Option Response)
        → ((response : Response) → x.1 ≡ some response → opened x.0 ≡ response.id ∷ before)
        → (x.1 ≡ none → opened x.0 ≡ before)
        → IsOpen before (answered net x)
    answered-IsOpen before (w, none) f g = g refl
    answered-IsOpen before (w, some response) f g = f response refl

    do_request-IsOpen : (r : Request) (w : W) → IsOpen (opened w) (do_request net r w)
    unfolding do_request
    do_request-IsOpen r w = elim (Bool-cases (net.accepts r.method (build_url r))) [
      | inl good ↦
          let x = net.exchange r (build_url r) w in
          rw good (
            answered-IsOpen (opened w) x
              (λ response e. laws.answers r (build_url r) w x.0 response (λ i. (x.0, e i)))
              (λ e. laws.fails r (build_url r) w x.0 (λ i. (x.0, e i))))
      | inr bad ↦ rw bad refl
    ]

    continue-closes :
        {A : Type 0} (before : List ℕ) (x : W × Result HttpError Response)
        (f : Response → Action HttpError W A)
        → IsOpen before x
        → ((response : Response) (w : W)
            → opened w ≡ response.id ∷ before
            → opened (f response w).0 ≡ before)
        → opened (continue x f).0 ≡ before
    continue-closes before (w, ok response) f h k = k response w h
    continue-closes before (w, err e) f h k = h

    -- A request whose response is closed by what follows.
    closes :
        {A : Type 0} (r : Request) (f : Response → Action HttpError W A) (w : W)
        → ((response : Response) (v : W)
            → opened v ≡ response.id ∷ opened w
            → opened (f response v).0 ≡ opened w)
        → opened ((do_request net r >>= f) w).0 ≡ opened w
    closes r f w k =
        rw (>>=-eq (do_request net r) f w)
          (continue-closes (opened w) (do_request net r w) f (do_request-IsOpen r w) k)

    body_of-closes :
        (before : List ℕ) (response : Response) (x : W × Option Text)
        → opened x.0 ≡ response.id ∷ before
        → opened (body_of net response x).0 ≡ before
    body_of-closes before response (w, none) h = laws.shut response.id before w h
    body_of-closes before response (w, some body) h = laws.shut response.id before w h

    -- On a transport that behaves as documented, sending a request and reading its response leaves
    -- just the responses open that were open before, also where a step fails.
    pub do_and_read-closes : (r : Request) (w : W) → opened (do_and_read net r w).0 ≡ opened w
    unfolding do_and_read
    do_and_read-closes r w = closes r _ w λ response v h.
        body_of-closes (opened w) response (net.read_body response.id v)
          (laws.reads response.id v ∙ h)

    pub status_of-closes : (r : Request) (w : W) → opened (status_of net r w).0 ≡ opened w
    unfolding status_of
    status_of-closes r w = closes r _ w λ response v h. laws.shut response.id (opened w) v h
