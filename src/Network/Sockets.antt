-- ===== src/Network/Sockets.antt =====
-- network.hpp, network.cpp: how a `TcpSocket` is opened, moved and closed, and how it sends and
-- receives. The calls of the operating system are a parameter, `Kernel`, over its state `S`.
pub mod Open
pub mod Send
pub mod Receive
pub mod Slots
pub mod Closing
pub mod Moves
pub mod Owners
mod Tests
use p2p_sync_engine.Prelude.{
  ℕ, zero, suc, ◌+◌, ◌-◌, ◌%◌, ◌^◌, Bool, true, false, Bytes, List, [], ◌∷◌, ◌++◌, Option, none,
  some, codes, if◌then◌else◌, ◌==◌, ◌≡◌, ◌≢◌,
}
use p2p_sync_engine.Exceptions.{Exception, Result, ok, throw, runtime_error}
use p2p_sync_engine.Streams.Int.{ℤ, pos, negsuc, print_int}

-- A descriptor that is not negative, or `none`; a call that gives 0, or `false`. `socket_for` takes the
-- family, type and protocol of an address, `socket_inet` is the call for AF_INET and SOCK_STREAM,
-- and `bind` is for any address.
pub record Kernel (S A : Type 0) : Type 0 where
  pub getaddrinfo : Bytes → Bytes → S → Option (List A) × S
  pub socket_for : A → S → Option ℕ × S
  pub socket_inet : S → Option ℕ × S
  pub set_reuse : ℕ → S → S
  pub connect : ℕ → A → S → Bool × S
  pub bind : ℕ → ℕ → S → Bool × S
  pub listen : ℕ → S → Bool × S
  pub accept : ℕ → S → Option ℕ × S
  pub close : ℕ → S → S

-- `none` is -1.
pub record TcpSocket : Type 0 where
  pub fd : Option ℕ

-- `static_cast<uint16_t>`
unfoldable pub uint16 : ℤ → ℕ
uint16 (pos n) = n % 2 ^ 16
uint16 (negsuc n) = (2 ^ 16 - 1) - n % 2 ^ 16

module _ {S A : Type 0} (k : Kernel S A) where
  -- A round of the loop behind `connect`; `later` is the rest of the loop.
  pub after_connect : ℕ → (S → Option ℕ × S) → Bool × S → Option ℕ × S
  after_connect fd later (true, s) = (some fd, s)
  after_connect fd later (false, s) = later (k.close fd s)

  -- A round of the loop behind `socket`.
  pub after_socket : A → (S → Option ℕ × S) → Option ℕ × S → Option ℕ × S
  unfolding after_connect
  after_socket p later (none, s) = later s
  after_socket p later (some fd, s) = after_connect fd later (k.connect fd p s)

  -- The loop over the addresses.
  unfoldable pub connect_loop : List A → S → Option ℕ × S
  unfolding after_socket
  connect_loop [] s = (none, s)
  connect_loop (p ∷ res) s = after_socket p (connect_loop res) (k.socket_for p s)

  unfoldable pub resolution_failed : Bytes → S → Result TcpSocket × S
  resolution_failed host s =
      (throw (runtime_error (codes "DNS/address resolution failed for " ++ host)), s)

  -- Behind the loop.
  pub connected_to : Bytes → Bytes → Option ℕ × S → Result TcpSocket × S
  connected_to host port_str (none, s) = (
    throw (runtime_error (codes "failed to connect to " ++ (host ++ (codes ":" ++ port_str)))),
    s,
  )
  connected_to host port_str (some fd, s) = (ok (record { fd = some fd }), s)

  -- Behind the resolution.
  pub connect_each : Bytes → Bytes → Option (List A) × S → Result TcpSocket × S
  unfolding connect_loop connected_to resolution_failed
  connect_each host port_str (none, s) = resolution_failed host s
  connect_each host port_str (some [], s) = resolution_failed host s
  connect_each host port_str (some (p ∷ res), s) =
      connected_to host port_str (connect_loop (p ∷ res) s)

  unfoldable pub connect_to : Bytes → ℤ → S → Result TcpSocket × S
  unfolding connect_each
  connect_to host port s =
      let port_str = print_int port in connect_each host port_str (k.getaddrinfo host port_str s)

  -- Behind `accept`: the listening descriptor is closed, whatever `accept` gave.
  pub accepted : ℕ → Option ℕ × S → Result TcpSocket × S
  accepted listen_fd (none, s) =
      (throw (runtime_error (codes "accept() failed")), k.close listen_fd s)
  accepted listen_fd (some conn_fd, s) = (ok (record { fd = some conn_fd }), k.close listen_fd s)

  -- Behind `listen`.
  pub listening : ℕ → Bool × S → Result TcpSocket × S
  unfolding accepted
  listening listen_fd (false, s) =
      (throw (runtime_error (codes "listen() failed")), k.close listen_fd s)
  listening listen_fd (true, s) = accepted listen_fd (k.accept listen_fd s)

  -- Behind `bind`.
  pub bound : ℤ → ℕ → Bool × S → Result TcpSocket × S
  unfolding listening
  bound port listen_fd (false, s) = (
    throw (runtime_error (codes "bind() failed on port " ++ print_int port)),
    k.close listen_fd s,
  )
  bound port listen_fd (true, s) = listening listen_fd (k.listen listen_fd s)

  -- Behind `socket`.
  pub created : ℤ → Option ℕ × S → Result TcpSocket × S
  unfolding bound
  created port (none, s) = (throw (runtime_error (codes "socket() failed")), s)
  created port (some listen_fd, s) =
      bound port listen_fd (k.bind listen_fd (uint16 port) (k.set_reuse listen_fd s))

  unfoldable pub accept_once : ℤ → S → Result TcpSocket × S
  unfolding created
  accept_once port s = created port (k.socket_inet s)

  -- The destructor.
  unfoldable pub destroy : TcpSocket → S → S
  destroy sock s = elim sock.fd [ none ↦ s | some fd ↦ k.close fd s ]

  -- The new object and the one that is moved from.
  unfoldable pub move_construct : TcpSocket → TcpSocket × TcpSocket
  move_construct other = (record { fd = other.fd }, record { fd = none })

  -- The object that is assigned to and another one, that is moved from.
  unfoldable pub move_assign : TcpSocket → TcpSocket → S → (TcpSocket × TcpSocket) × S
  unfolding destroy
  move_assign this other s = ((record { fd = other.fd }, record { fd = none }), destroy this s)

-- The `TcpSocket` objects of a program: what each one holds, by a name for the object, and the system.
-- A name without an object holds nothing.
pub record Objects (S : Type 0) : Type 0 where
  pub held : ℕ → Option ℕ
  pub system : S

abbrev pub place : ℕ → TcpSocket → (ℕ → Option ℕ) → ℕ → Option ℕ
place x sock held y = if y == x then sock.fd else held y

abbrev pub object : {S : Type 0} → Objects S → ℕ → TcpSocket
object o x = record { fd = o.held x }

-- The object `x` is made from what `connect_to` or `accept_once` gives; on an exception there is none.
pub made : {S : Type 0} → ℕ → Objects S → Result TcpSocket × S → Objects S
made x o (ok sock, s) = record { held = place x sock o.held; system = s }
made x o (throw e, s) = record { held = o.held; system = s }

module _ {S A : Type 0} (k : Kernel S A) where
  unfoldable pub destroyed : ℕ → Objects S → Objects S
  unfolding destroy
  destroyed x o = record {
    held = place x (record { fd = none }) o.held;
    system = destroy k (object o x) o.system;
  }

  -- `x` is made from `y`, which is moved from.
  unfoldable pub moved : ℕ → ℕ → Objects S → Objects S
  unfolding move_construct
  moved x y o =
      let r = move_construct k (object o y) in
      record { held = place y r.1 (place x r.0 o.held); system = o.system }

  -- `x = std::move(y)`, with its test that they are two objects.
  unfoldable pub assigned : ℕ → ℕ → Objects S → Objects S
  unfolding move_assign
  assigned x y o =
      let r = move_assign k (object o x) (object o y) o.system in
      if x == y then o else record { held = place y r.0.1 (place x r.0.0 o.held); system = r.1 }

  -- What a program can do with its objects.
  pub data Step : Objects S → Objects S → Type 0 where
    connects :
        {o : Objects S}
        → (x : ℕ) (host : Bytes) (port : ℤ) → o.held x ≡ none
        → Step o (made x o (connect_to k host port o.system))
    accepts :
        {o : Objects S}
        → (x : ℕ) (port : ℤ) → o.held x ≡ none
        → Step o (made x o (accept_once k port o.system))
    moves : {o : Objects S} → (x y : ℕ) → x ≢ y → o.held x ≡ none → Step o (moved x y o)
    assigns : {o : Objects S} → (x y : ℕ) → Step o (assigned x y o)
    destroys : {o : Objects S} → (x : ℕ) → Step o (destroyed x o)

  pub data Reach : Objects S → Objects S → Type 0 where
    here : {o : Objects S} → Reach o o
    next : {o p q : Objects S} → Reach o p → Step p q → Reach o q
