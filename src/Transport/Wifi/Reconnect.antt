-- ===== src/Transport/Wifi/Reconnect.antt =====
-- src/transport/wifi_transport.rs: reading ends, and reconnecting backs off.
use stellarconduit_core.Prelude.{
  ℕ, zero, suc, ◌-◌, ◌*◌, ◌<◌, List, [], ◌∷◌, Bytes, Option, none, some, Result, ok, err, ◌≡◌, ◌≢◌,
  refl, sym, ap, subst, ◌∙◌, arith, length, take, drop, length-drop, leb, ltb, inl, inr, ◌⊎◌,
  Bool-cases, Option-cases, from_le_bytes,
}
use stellarconduit_core.Message.Encoding.{Encoding}
use stellarconduit_core.Transport.Chunks.{MessageReassembler, receive_chunk}
use stellarconduit_core.Transport.Wire.{fields}
use stellarconduit_core.Transport.Connection.{
  TransportError, connection_refused, connected, disconnected,
}
use stellarconduit_core.Transport.Wifi.{
  TcpStream, WifiDirectConnection, read_exact, read_frame, recv_loop, recv, attempts, reconnect,
}

-- A frame that is read takes four bytes at least.
read_frame-lt :
    (s : TcpStream) (raw : Bytes)
    → (read_frame s).1 ≡ ok raw
    → length (read_frame s).0.incoming < length s.incoming
unfolding read_frame read_exact
read_frame-lt s raw h = elim (Bool-cases (leb 4 (length s.incoming))) [
  | inr ends ↦ absurd (ground (arith, h, ends))
  | inl long ↦
      let n = from_le_bytes (take 4 s.incoming) in
      ground (arith, long, h, length-drop 4 s.incoming, length-drop n (drop 4 s.incoming))
]

read_frame_cases :
    (s : TcpStream)
    → ((x : TransportError) × ((read_frame s).1 ≡ err x))
      ⊎ ((raw : Bytes) × ((read_frame s).1 ≡ ok raw)
          × (length (read_frame s).0.incoming < length s.incoming))
read_frame_cases s = named (read_frame s).1 refl
  where
    named :
        (frame : Result Bytes TransportError)
        → (read_frame s).1 ≡ frame
        → ((x : TransportError) × ((read_frame s).1 ≡ err x))
          ⊎ ((raw : Bytes) × ((read_frame s).1 ≡ ok raw)
              × (length (read_frame s).0.incoming < length s.incoming))
    named (err x) e = inl (x, e)
    named (ok raw) e = inr (raw, e, read_frame-lt s raw e)

recv_loop_total :
    (fuel : ℕ) (e : Encoding) (clock : ℕ → ℕ) (s : TcpStream) (r : MessageReassembler)
    → length s.incoming < fuel
    → recv_loop fuel e clock s r ≢ none
unfolding recv_loop
recv_loop_total zero e clock s r h = absurd (omega arith)
recv_loop_total (suc fuel) e clock s r h = elim (read_frame_cases s) [
  | inl (x, e') ↦ ground (arith, e')
  | inr (raw, e', less) ↦
      let r' = (receive_chunk r (fields raw) (clock fuel)).0 in
      ground (arith, e', less, recv_loop_total fuel e clock (read_frame s).0 r')
]

-- The fuel that `recv` gives its loop is enough: it always returns.
pub recv_total : (e : Encoding) (clock : ℕ → ℕ) (c : WifiDirectConnection) → recv e clock c ≢ none
unfolding recv
recv_total e clock c = elim (Option-cases c.stream) [
  | inl n ↦ ground (arith, n)
  | inr (s, e') ↦
      ground
        (arith, e', recv_loop_total (suc (length s.incoming)) e clock s c.reassembler (omega arith))
]

-- Pauses that double.
abbrev pub backoff : ℕ → ℕ → List ℕ
backoff zero delay = []
backoff (suc n) delay = delay ∷ backoff n (delay * 2)

-- The attempt with `k` left after it opens the stream, and those before it fail; or all fail. With
-- the answer and the pauses of each case.
abbrev pub Settles :
    ℕ
    → ℕ
    → (ℕ → Option TcpStream)
    → WifiDirectConnection
    → (WifiDirectConnection × Option TransportError) × List ℕ
    → Type 0
Settles left delay connects c (r, pauses) =
    ((k : ℕ) × (s : TcpStream) × (k < left)
      × (connects k ≡ some s)
      × ((i : ℕ) → k < i → i < left → connects i ≡ none)
      × (r ≡ (record c { stream = some s; state = connected }, none))
      × (pauses ≡ backoff (left - k) delay))
    ⊎ (((i : ℕ) → i < left → connects i ≡ none)
        × (r ≡ (record c { state = disconnected }, some connection_refused))
        × (pauses ≡ backoff left delay))

attempts-fail :
    (left delay : ℕ) (connects : ℕ → Option TcpStream) (c : WifiDirectConnection)
    → connects left ≡ none
    → attempts (suc left) delay connects c
      ≡ ((attempts left (delay * 2) connects c).0, delay ∷ (attempts left (delay * 2) connects c).1)
unfolding attempts
attempts-fail left delay connects c e = ground (arith, e)

attempts-open :
    (left delay : ℕ) (connects : ℕ → Option TcpStream) (c : WifiDirectConnection) (s : TcpStream)
    → connects left ≡ some s
    → attempts (suc left) delay connects c
      ≡ ((record c { stream = some s; state = connected }, none), delay ∷ [])
unfolding attempts
attempts-open left delay connects c s e = ground (arith, e)

-- A range of failed attempts grows by one.
fails_up :
    (connects : ℕ → Option TcpStream) (n : ℕ) (P : ℕ → Type 0)
    → connects n ≡ none
    → ((i : ℕ) → P i → i < n → connects i ≡ none)
    → (i : ℕ) → P i
    → i < suc n
    → connects i ≡ none
fails_up connects n P e fails i k h = elim (Bool-cases (ltb i n)) [
  | inl lt ↦ fails i k (ground arith)
  | inr ge ↦ let same : i ≡ n = ground arith in rw same e
]

backoff-suc :
    (k left delay : ℕ)
    → k < left
    → delay ∷ backoff (left - k) (delay * 2) ≡ backoff (suc left - k) delay
backoff-suc k left delay h = let e : suc left - k ≡ suc (left - k) = omega arith in rw e

backoff_one : (left delay : ℕ) → delay ∷ [] ≡ backoff (suc left - left) delay
backoff_one left delay = let e : suc left - left ≡ 1 = omega arith in rw e

attempts-Settles :
    (left delay : ℕ) (connects : ℕ → Option TcpStream) (c : WifiDirectConnection)
    → Settles left delay connects c (attempts left delay connects c)
attempts-Settles zero delay connects c =
    unfold attempts in inr (λ i h. absurd (omega arith), refl, refl)
attempts-Settles (suc left) delay connects c = elim (Option-cases (connects left)) [
  | inl e ↦
      subst (Settles (suc left) delay connects c) (sym (attempts-fail left delay connects c e))
        (elim (attempts-Settles left (delay * 2) connects c) [
          | inl (k, s, lt, at, before, r, pauses) ↦ inl (
            k,
            s,
            omega arith,
            at,
            fails_up connects left (λ i. k < i) e before,
            r,
            ap (◌∷◌ delay) pauses ∙ backoff-suc k left delay lt,
          )
          | inr (all, r, pauses) ↦ inr (
            λ i h. fails_up connects left (λ i. Unit {0}) e (λ j u l. all j l) i tt h,
            r,
            ap (◌∷◌ delay) pauses,
          )
        ])
  | inr (s, e) ↦
      subst (Settles (suc left) delay connects c) (sym (attempts-open left delay connects c s e))
        (inl (left, s, omega arith, e, λ i a b. absurd (omega arith), refl, backoff_one left delay))
]

-- Reconnecting to a known address takes the first of five attempts that opens a stream, and fails as
-- refused where none does; the pauses before the attempts start at 100 milliseconds and double.
pub reconnect-Settles :
    (connects : ℕ → Option TcpStream) (c : WifiDirectConnection) (addr : Bytes)
    → c.addr ≡ some addr
    → Settles 5 100 connects c (reconnect connects c)
unfolding reconnect
reconnect-Settles connects c addr e =
    subst (Settles 5 100 connects c) (sym (ground (arith, e))) (attempts-Settles 5 100 connects c)
