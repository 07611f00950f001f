-- ===== src/Network/Sockets/Open.antt =====
-- The descriptors that `connect_to` and `accept_once` leave open.
use p2p_sync_engine.Prelude.{
  true-ne-false, ℕ, Bool, true, false, Bytes, List, [], ◌∷◌, Option, none, some, ◌==◌,
  if◌then◌else◌, ◌≡◌, refl, sym, ap, ==_iff, ◌∙◌,
}
use p2p_sync_engine.Exceptions.{Result, ok, throw}
use p2p_sync_engine.Streams.Int.{ℤ, print_int}
use p2p_sync_engine.Network.Sockets.{
  Kernel, TcpSocket, after_connect, after_socket, connect_loop, resolution_failed, connected_to,
  connect_each, connect_to, accepted, listening, bound, created, accept_once, uint16,
}

-- One more descriptor is open, that was not, or none is, if the call failed.
abbrev pub Opens : {S : Type 0} → (S → ℕ → Bool) → S → Option ℕ × S → Type 0
Opens is_open s (none, s') = (j : ℕ) → is_open s' j ≡ is_open s j
Opens is_open s (some fd, s') =
    (is_open s fd ≡ false) × ((j : ℕ) → is_open s' j ≡ (if j == fd then true else is_open s j))

-- The same of the outcome of a constructor.
abbrev pub OpensSocket : {S : Type 0} → (S → ℕ → Bool) → S → Result TcpSocket × S → Type 0
OpensSocket is_open s (ok sock, s') = (fd : ℕ) × (sock.fd ≡ some fd) × Opens is_open s (some fd, s')
OpensSocket is_open s (throw x, s') = Opens is_open s (none, s')

-- What is documented of the calls: which descriptors are open before and after each.
pub record Descriptors {S A : Type 0} (k : Kernel S A) : Type 0 where
  pub is_open : S → ℕ → Bool
  pub getaddrinfo_keeps :
      (host port : Bytes) (s : S) (j : ℕ) → is_open (k.getaddrinfo host port s).1 j ≡ is_open s j
  pub socket_for_opens : (a : A) (s : S) → Opens is_open s (k.socket_for a s)
  pub socket_inet_opens : (s : S) → Opens is_open s (k.socket_inet s)
  pub accept_opens : (fd : ℕ) (s : S) → Opens is_open s (k.accept fd s)
  pub set_reuse_keeps : (fd : ℕ) (s : S) (j : ℕ) → is_open (k.set_reuse fd s) j ≡ is_open s j
  pub connect_keeps :
      (fd : ℕ) (a : A) (s : S) (j : ℕ) → is_open (k.connect fd a s).1 j ≡ is_open s j
  pub bind_keeps : (fd port : ℕ) (s : S) (j : ℕ) → is_open (k.bind fd port s).1 j ≡ is_open s j
  pub listen_keeps : (fd : ℕ) (s : S) (j : ℕ) → is_open (k.listen fd s).1 j ≡ is_open s j
  pub close_closes :
      (fd : ℕ) (s : S) (j : ℕ) → is_open (k.close fd s) j ≡ (if j == fd then false else is_open s j)

module _ {S A : Type 0} (k : Kernel S A) (d : Descriptors k) where
  Opens-from :
      (s s' : S) (o : Option ℕ × S)
      → ((j : ℕ) → d.is_open s' j ≡ d.is_open s j)
      → Opens d.is_open s' o
      → Opens d.is_open s o
  Opens-from s s' (none, t) same h = λ j. h j ∙ same j
  Opens-from s s' (some fd, t) same h =
      (sym (same fd) ∙ h.0, λ j. h.1 j ∙ ap (λ b. if j == fd then true else b) (same j))

  -- A descriptor that was opened and is closed again.
  closed_again :
      (s s' s'' : S) (fd : ℕ)
      → Opens d.is_open s (some fd, s')
      → ((j : ℕ) → d.is_open s'' j ≡ d.is_open s' j)
      → (j : ℕ) → d.is_open (k.close fd s'') j ≡ d.is_open s j
  closed_again s s' s'' fd h same j = by_test (j == fd) refl
    where
      by_test : (b : Bool) → (j == fd) ≡ b → d.is_open (k.close fd s'') j ≡ d.is_open s j
      by_test true q =
          let same_fd : j ≡ fd = (==_iff j fd).0 q in
          d.close_closes fd s'' j ∙ (rw q refl) ∙ sym h.0 ∙ ap (d.is_open s) (sym same_fd)
      by_test false q = d.close_closes fd s'' j ∙ (rw q refl) ∙ same j ∙ h.1 j ∙ (rw q refl)

  after_connect-Opens :
      (s s' : S) (fd : ℕ) (later : S → Option ℕ × S) (c : Bool × S)
      → Opens d.is_open s (some fd, s')
      → ((j : ℕ) → d.is_open c.1 j ≡ d.is_open s' j)
      → ((t : S) → Opens d.is_open t (later t))
      → Opens d.is_open s (after_connect k fd later c)
  unfolding after_connect
  after_connect-Opens s s' fd later (true, t) h same rest = (h.0, λ j. same j ∙ h.1 j)
  after_connect-Opens s s' fd later (false, t) h same rest =
      Opens-from s (k.close fd t) _ (closed_again s s' t fd h same) (rest (k.close fd t))

  after_socket-Opens :
      (s : S) (p : A) (later : S → Option ℕ × S) (o : Option ℕ × S)
      → Opens d.is_open s o
      → ((t : S) → Opens d.is_open t (later t))
      → Opens d.is_open s (after_socket k p later o)
  unfolding after_socket
  after_socket-Opens s p later (none, t) h rest = Opens-from s t _ h (rest t)
  after_socket-Opens s p later (some fd, t) h rest =
      after_connect-Opens s t fd later (k.connect fd p t) h (d.connect_keeps fd p t) rest

  connect_loop-Opens : (res : List A) (s : S) → Opens d.is_open s (connect_loop k res s)
  unfolding connect_loop
  connect_loop-Opens [] s = λ j. refl
  connect_loop-Opens (p ∷ res) s =
      after_socket-Opens s p (connect_loop k res) (k.socket_for p s) (d.socket_for_opens p s)
        (connect_loop-Opens res)

  connected_to-OpensSocket :
      (host port_str : Bytes) (s : S) (o : Option ℕ × S)
      → Opens d.is_open s o
      → OpensSocket d.is_open s (connected_to k host port_str o)
  unfolding connected_to
  connected_to-OpensSocket host port_str s (none, t) h = h
  connected_to-OpensSocket host port_str s (some fd, t) h = (fd, refl, h)

  connect_each-OpensSocket :
      (host port_str : Bytes) (s : S) (o : Option (List A) × S)
      → ((j : ℕ) → d.is_open o.1 j ≡ d.is_open s j)
      → OpensSocket d.is_open s (connect_each k host port_str o)
  unfolding connect_each resolution_failed
  connect_each-OpensSocket host port_str s (none, t) same = same
  connect_each-OpensSocket host port_str s (some [], t) same = same
  connect_each-OpensSocket host port_str s (some (p ∷ res), t) same =
      connected_to-OpensSocket host port_str s _
        (Opens-from s t _ same (connect_loop-Opens (p ∷ res) t))

  accepted-OpensSocket :
      (s t : S) (listen_fd : ℕ) (o : Option ℕ × S)
      → Opens d.is_open s (some listen_fd, t)
      → Opens d.is_open t o
      → OpensSocket d.is_open s (accepted k listen_fd o)
  unfolding accepted
  accepted-OpensSocket s t listen_fd (none, u) h o = closed_again s t u listen_fd h o
  accepted-OpensSocket s t listen_fd (some conn_fd, u) h o =
      let fresh = apart (conn_fd == listen_fd) refl in
      (conn_fd, refl, (fresh.0, λ j. both j (j == listen_fd) (j == conn_fd) refl refl))
    where
      apart :
          (b : Bool)
          → (conn_fd == listen_fd) ≡ b
          → (d.is_open s conn_fd ≡ false) × ((conn_fd == listen_fd) ≡ false)
      apart true q =
          let clash : true ≡ false = sym (h.1 conn_fd ∙ (rw q refl)) ∙ o.0 in
          absurd (true-ne-false clash)
      apart false q = (sym (h.1 conn_fd ∙ (rw q refl)) ∙ o.0, q)

      both :
          (j : ℕ) (b c : Bool)
          → (j == listen_fd) ≡ b
          → (j == conn_fd) ≡ c
          → d.is_open (k.close listen_fd u) j ≡ (if j == conn_fd then true else d.is_open s j)
      both j true true q r =
          let same : conn_fd ≡ listen_fd =
            sym ((==_iff j conn_fd).0 r) ∙ (==_iff j listen_fd).0 q in
          absurd (true-ne-false (sym ((==_iff conn_fd listen_fd).1 same) ∙ (apart _ refl).1))
      both j true false q r =
          d.close_closes listen_fd u j
          ∙ (rw q refl)
          ∙ sym h.0
          ∙ ap (d.is_open s) (sym ((==_iff j listen_fd).0 q))
          ∙ sym (ap (λ x. if x then true else d.is_open s j) r)
      both j false true q r =
          d.close_closes listen_fd u j
          ∙ (rw q refl)
          ∙ o.1 j
          ∙ ap (λ x. if x then true else d.is_open t j) r
          ∙ sym (ap (λ x. if x then true else d.is_open s j) r)
      both j false false q r =
          d.close_closes listen_fd u j
          ∙ (rw q refl)
          ∙ o.1 j
          ∙ ap (λ x. if x then true else d.is_open t j) r
          ∙ h.1 j
          ∙ ap (λ x. if x then true else d.is_open s j) q
          ∙ sym (ap (λ x. if x then true else d.is_open s j) r)

  listening-OpensSocket :
      (s t : S) (listen_fd : ℕ) (o : Bool × S)
      → Opens d.is_open s (some listen_fd, t)
      → ((j : ℕ) → d.is_open o.1 j ≡ d.is_open t j)
      → OpensSocket d.is_open s (listening k listen_fd o)
  unfolding listening
  listening-OpensSocket s t listen_fd (false, u) h same = closed_again s t u listen_fd h same
  listening-OpensSocket s t listen_fd (true, u) h same =
      accepted-OpensSocket s u listen_fd (k.accept listen_fd u) (h.0, λ j. same j ∙ h.1 j)
        (d.accept_opens listen_fd u)

  bound-OpensSocket :
      (port : ℤ) (s t : S) (listen_fd : ℕ) (o : Bool × S)
      → Opens d.is_open s (some listen_fd, t)
      → ((j : ℕ) → d.is_open o.1 j ≡ d.is_open t j)
      → OpensSocket d.is_open s (bound k port listen_fd o)
  unfolding bound
  bound-OpensSocket port s t listen_fd (false, u) h same = closed_again s t u listen_fd h same
  bound-OpensSocket port s t listen_fd (true, u) h same =
      listening-OpensSocket s u listen_fd (k.listen listen_fd u) (h.0, λ j. same j ∙ h.1 j)
        (d.listen_keeps listen_fd u)

  created-OpensSocket :
      (port : ℤ) (s : S) (o : Option ℕ × S)
      → Opens d.is_open s o
      → OpensSocket d.is_open s (created k port o)
  unfolding created
  created-OpensSocket port s (none, t) h = h
  created-OpensSocket port s (some fd, t) h =
      bound-OpensSocket port s t fd (k.bind fd (uint16 port) (k.set_reuse fd t)) h
        (λ j. d.bind_keeps fd (uint16 port) _ j ∙ d.set_reuse_keeps fd t j)

  -- When the calls open and close descriptors as is documented of them, `connect_to` and `accept_once`
  -- give a socket with a descriptor that was not open before, and open no other one; when they throw,
  -- the open descriptors are those from before.
  pub opened_sockets :
      (host : Bytes) (port : ℤ) (s : S)
      → OpensSocket d.is_open s (connect_to k host port s)
        × OpensSocket d.is_open s (accept_once k port s)
  unfolding connect_to accept_once
  opened_sockets host port s = (
    connect_each-OpensSocket host (print_int port) s (k.getaddrinfo host (print_int port) s)
        (d.getaddrinfo_keeps host (print_int port) s),
    created-OpensSocket port s (k.socket_inet s) (d.socket_inet_opens s),
  )
