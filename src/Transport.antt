-- ===== src/Transport.antt =====
-- transport/transport.go: a transport hands the messages of `Send` to a connection, and those of its
-- own connection to `Recv`. Here are the parts that all schemes share and the scheme "chan", whose
-- connections are Go channels. Channels hold what waits in them, oldest first. The goroutines of
-- `Dial` and `Listen` are entries of two lists, and one move of a message is a step of theirs.
pub mod Flow
pub mod Kept
pub mod Order
pub mod Tests
use bamboo.Prelude.{
  ℕ, zero, suc, ◌+◌, Bool, true, false, ◌&&◌, Option, none, some, List, [], ◌∷◌, ◌++◌, ◌==◌,
  if◌then◌else◌, update, get_elem?,
}
use bamboo.Outcome.{Outcome, ok, err, fault, panicked, exit, Error, no_server}
use bamboo.Identity.{Text}

-- `strings.Contains(addr, "://")`
starts_with : Text → Text → Bool
starts_with [] text = true
starts_with (c ∷ part) [] = false
starts_with (c ∷ part) (d ∷ text) = c == d && starts_with part text

has_part : Text → Text → Bool
unfolding starts_with
has_part part [] = starts_with part []
has_part part (c ∷ text) = if starts_with part (c ∷ text) then true else has_part part text

-- The address with the scheme of the command line, where it names none.
pub with_scheme : Text → Text → Text
unfolding has_part
with_scheme scheme addr =
    let mark = b':' ∷ b'/' ∷ b'/' ∷ [] in
    if has_part mark addr then addr else scheme ++ (mark ++ addr)

-- Where `url.Parse` fails or finds another scheme, the process exits.
pub data Scheme : Type 0 where
  chan tcp udp unknown : Scheme

pub made : Option Scheme → Outcome Scheme
made none = fault exit
made (some unknown) = fault exit
made (some chan) = ok chan
made (some tcp) = ok tcp
made (some udp) = ok udp

-- A transport and a host are numbers, and so is a channel between transports, since a second `Listen`
-- makes a new one while goroutines hold the old one. A message in such a channel stands beside the
-- transport that sent it.
module _ (Msg : Type 0) where
  abbrev pub Parcel : Type 0
  Parcel = ℕ × Msg

  -- The fields of each transport; `given` is what its `Send` was given and `received` what its `Recv`
  -- returned. `chans` is the table of hosts, `made_chans` the number of channels made.
  pub record Net : Type 0 where
    pub host : ℕ → ℕ
    pub sends : ℕ → List Msg
    pub recvs : ℕ → List Parcel
    pub closed : ℕ → Bool
    pub given : ℕ → List Msg
    pub received : ℕ → List Parcel
    pub chans : ℕ → Option ℕ
    pub conns : ℕ → List Parcel
    pub made_chans : ℕ
    pub dialers : List (ℕ × ℕ)
    pub listeners : List (ℕ × ℕ)

module _ {Msg : Type 0} where
  -- No transport has dialled, listened or sent yet.
  pub new_net : (ℕ → ℕ) → Net Msg
  new_net host = record {
    host = host;
    sends = λ _. [];
    recvs = λ _. [];
    closed = λ _. false;
    given = λ _. [];
    received = λ _. [];
    chans = λ _. none;
    conns = λ _. [];
    made_chans = 0;
    dialers = [];
    listeners = [];
  }

  pub send : ℕ → Msg → Net Msg → Outcome (Unit {0}) × Net Msg
  send t m n = if n.closed t then (fault panicked, n) else (
    ok tt,
    record n {
      sends = update n.sends t (n.sends t ++ m ∷ []);
      given = update n.given t (n.given t ++ m ∷ []);
    },
  )

  -- `Recv` waits where nothing is there.
  pub recv_from : ℕ → List (Parcel Msg) → Net Msg → Net Msg
  recv_from t [] n = n
  recv_from t (p ∷ ps) n = record n {
    recvs = update n.recvs t ps;
    received = update n.received t (n.received t ++ p ∷ []);
  }

  pub recv : ℕ → Net Msg → Net Msg
  unfolding recv_from
  recv t n = recv_from t (n.recvs t) n

  pub close : ℕ → Net Msg → Outcome (Unit {0}) × Net Msg
  close t n =
      if n.closed t
      then (fault panicked, n)
      else (ok tt, record n { closed = update n.closed t true })

  pub dial_to : Option ℕ → ℕ → Net Msg → Outcome (Unit {0}) × Net Msg
  dial_to none t n = (err no_server, n)
  dial_to (some c) t n = (ok tt, record n { dialers = n.dialers ++ (t, c) ∷ [] })

  pub dial : ℕ → Net Msg → Outcome (Unit {0}) × Net Msg
  unfolding dial_to
  dial t n = dial_to (n.chans (n.host t)) t n

  pub listen : ℕ → Net Msg → Net Msg
  listen t n = record n {
    chans = update n.chans (n.host t) (some n.made_chans);
    conns = update n.conns n.made_chans [];
    made_chans = suc n.made_chans;
    listeners = n.listeners ++ (n.made_chans, t) ∷ [];
  }

  -- The goroutine of a `Dial` moves a message, if there is one.
  move_out : List Msg → ℕ → ℕ → Net Msg → Net Msg
  move_out [] t c n = n
  move_out (m ∷ ms) t c n = record n {
    sends = update n.sends t ms;
    conns = update n.conns c (n.conns c ++ (t, m) ∷ []);
  }

  pub out_of : Option (ℕ × ℕ) → Net Msg → Net Msg
  unfolding move_out
  out_of none n = n
  out_of (some (t, c)) n = move_out (n.sends t) t c n

  pub forward : ℕ → Net Msg → Net Msg
  unfolding out_of
  forward i n = out_of (get_elem? n.dialers i) n

  -- The goroutine of a `Listen`. On a closed transport it may also end, where this step is not taken.
  move_in : List (Parcel Msg) → ℕ → ℕ → Net Msg → Net Msg
  move_in [] c l n = n
  move_in (p ∷ ps) c l n = record n {
    conns = update n.conns c ps;
    recvs = update n.recvs l (n.recvs l ++ p ∷ []);
  }

  pub into : Option (ℕ × ℕ) → Net Msg → Net Msg
  unfolding move_in
  into none n = n
  into (some (c, l)) n = move_in (n.conns c) c l n

  pub pull : ℕ → Net Msg → Net Msg
  unfolding into
  pull j n = into (get_elem? n.listeners j) n
