-- ===== src/Transfer/Laws.antt =====
-- The server's file is the archive.
use n_backup.Prelude.{
  ℕ, zero, suc, ◌+◌, ◌^◌, ◌≤◌, ◌<◌, ◌≡◌, refl, ap, ◌∙◌, arith, true, false, List, [], ◌∷◌, length,
  length-append, inl, inr, All, ◌==◌, Bool-cases,
}
use n_backup.Frame.{Chunk, frames, Fits}
use n_backup.Frame.Laws.{length-frame}
use n_backup.Assembler.Defs.{Assembler}
use n_backup.Assembler.Branches.{is_refused}
use n_backup.Assembler.Stream.{Has}
use n_backup.Assembler.Calls.{IsEager}
use n_backup.Assembler.System.{contains}
use n_backup.Assembler.Alone.{write_chunk_alone, IsAccepted, write_chunk_alone-IsAccepted}
use n_backup.Receive.{Receiving, finished, receive_loop, receive_parallel_stream}
use n_backup.Receive.Whole.{deliver_all, Accepts, after, session-after, receive_all}
use n_backup.Dispatcher.{Dispatcher}
use n_backup.Dispatcher.Log.{Log, payload_of}
use n_backup.Dispatcher.Numbers.{seqs, AreOf}
use n_backup.Transfer.{ring_of, joined, receive_stream, receive_streams}

pub payload_lengths :
    (size t : ℕ) (log : Log)
    → All (λ e. (0 < length e.1) × (length e.1 ≤ size)) log
    → t < length log
    → (0 < length (payload_of log t)) × (length (payload_of log t) ≤ size)
unfolding payload_of
payload_lengths size t [] h lt = absurd (omega arith)
payload_lengths size zero ((i, p) ∷ log) (here, h) lt = here
payload_lengths size (suc t) ((i, p) ∷ log) (here, h) lt =
    payload_lengths size t log h (omega arith)

length-frames :
    (crc : List ℕ → ℕ) (i : ℕ) (chs : List Chunk) → length chs ≤ length (frames crc i chs)
unfolding frames
length-frames crc i [] = omega arith
length-frames crc i (ch ∷ chs) = omega (
  arith,
  length-append (n_backup.Frame.frame crc i ch) (frames crc i chs),
  length-frame crc i ch,
  length-frames crc i chs,
)

-- What a connection leaves: a good assembler that has its chunks and those it had.
record IsReceived (c : ℕ → List ℕ) (n : ℕ) (numbers : List ℕ) (ca ca' : Assembler) : Type 0 where
  good : IsEager c n ca'
  kept : (s : ℕ) → Has ca s → Has ca' s
  new : (s : ℕ) → contains s numbers ≡ true → Has ca' s

module _ (c : ℕ → List ℕ) (n : ℕ) (small : n < 2 ^ 32)
    (fine : (s : ℕ) → s < n → is_refused (c s) ≡ false) where
  delivered :
      (crc : List ℕ → ℕ) (i : ℕ) (chs : List Chunk) (ca : Assembler)
      → AreOf c n chs
      → IsEager c n ca
      → Accepts write_chunk_alone crc i chs ca
        × IsReceived c n (seqs chs) ca (deliver_all write_chunk_alone crc i chs ca)
  unfolding deliver_all contains
  delivered crc i [] ca are v =
      (tt, record { good = v; kept = λ s h. h; new = λ s h. absurd (ground arith) })
  delivered crc i (ch ∷ chs) ca ((lt, same), are) v =
      let (ok, good, has, keeps) = first ch ca lt same v in
      let (accepted, rest) =
        delivered crc i chs (write_chunk_alone ca ch.seq ch.payload).1 are good in
      (
        (ok, accepted),
        record {
          good = rest.good;
          kept = λ s h. rest.kept s (keeps s h);
          new = λ s h. elim (Bool-cases (ch.seq == s)) [
            | inl here ↦ let at : ch.seq ≡ s = ground arith in rest.kept s (rw (← at) has)
            | inr later ↦ rest.new s (ground arith)
          ];
        },
      )
    where
      first :
          (ch : Chunk) (ca : Assembler)
          → ch.seq < n
          → ch.payload ≡ c ch.seq
          → IsEager c n ca
          → IsAccepted c n ca ch.seq (write_chunk_alone ca ch.seq ch.payload)
      first ch ca lt same v =
          rw same (write_chunk_alone-IsAccepted c n small ca ch.seq v lt (fine ch.seq lt))

  module _ (crc : List ℕ → ℕ) (crc_fits : (l : List ℕ) → crc l < 2 ^ 32) where
    fits :
        (chs : List Chunk)
        → AreOf c n chs
        → ((s : ℕ) → s < n → length (c s) < 2 ^ 32)
        → All (Fits crc) chs
    fits [] are lengths = tt
    fits (ch ∷ chs) ((lt, same), are) lengths = (
      record {
        seq_fits = omega arith;
        length_fits = rw same (lengths ch.seq lt);
        crc_fits = crc_fits ch.payload;
      },
      fits chs are lengths,
    )

    receive_stream-IsReceived :
        (i : ℕ) (chs : List Chunk) (ca : Assembler)
        → AreOf c n chs
        → ((s : ℕ) → s < n → length (c s) < 2 ^ 32)
        → IsEager c n ca
        → ((receive_stream crc i (frames crc i chs) ca).0 ≡ finished)
          × IsReceived c n (seqs chs) ca (receive_stream crc i (frames crc i chs) ca).1
    unfolding receive_stream receive_parallel_stream
    receive_stream-IsReceived i chs ca are lengths v =
        let (accepts, received) = delivered crc i chs ca are v in
        let r : Receiving Assembler = record (joined ca) { local_chunk_seq = 0 } in
        let same : r.session ≡ ca = unfold joined in refl in
        let all : receive_loop write_chunk_alone crc i (length (frames crc i chs) + 1)
              (frames crc i chs) r
            ≡ (finished, after write_chunk_alone crc i chs r) =
          receive_all write_chunk_alone crc i (length (frames crc i chs) + 1) chs r
            (fits chs are lengths) (rw same accepts) (omega (arith, length-frames crc i chs)) in
        let end : (receive_loop write_chunk_alone crc i (length (frames crc i chs) + 1)
              (frames crc i chs) r).1.session
            ≡ deliver_all write_chunk_alone crc i chs ca =
          ap (λ p. p.1.session) all
          ∙ (session-after write_chunk_alone crc i chs r
              ∙ ap (deliver_all write_chunk_alone crc i chs) same) in
        (ap (λ p. p.0) all, rw end received)

    -- Any sequence of the streams' connections.
    pub receive_streams-IsReceived :
        (d : Dispatcher) (of : ℕ → List Chunk) (order : List ℕ) (ca : Assembler)
        → ((i : ℕ) → ring_of d i ≡ frames crc i (of i))
        → ((i : ℕ) → AreOf c n (of i))
        → ((s : ℕ) → s < n → length (c s) < 2 ^ 32)
        → IsEager c n ca
        → All (λ e. e ≡ finished) (receive_streams crc d order ca).0
          × IsEager c n (receive_streams crc d order ca).1
          × ((s : ℕ) → Has ca s → Has (receive_streams crc d order ca).1 s)
          × ((i s : ℕ)
              → contains i order ≡ true
              → contains s (seqs (of i)) ≡ true
              → Has (receive_streams crc d order ca).1 s)
    unfolding receive_streams contains
    receive_streams-IsReceived d of [] ca rings are lengths v =
        (tt, v, λ s h. h, λ i s h. absurd (ground arith))
    receive_streams-IsReceived d of (j ∷ order) ca rings are lengths v =
        let (ended, received) = one j ca v in
        let (others, good, kept, new) =
          receive_streams-IsReceived d of order (receive_stream crc j (ring_of d j) ca).1 rings are
            lengths received.good in
        (
          (ended, others),
          good,
          λ s h. kept s (received.kept s h),
          λ i s within has. elim (Bool-cases (j == i)) [
            | inl here ↦ let at : j ≡ i = ground arith in kept s (received.new s (rw at has))
            | inr later ↦ new i s (ground arith) has
          ],
        )
      where
        one :
            (j : ℕ) (ca : Assembler)
            → IsEager c n ca
            → ((receive_stream crc j (ring_of d j) ca).0 ≡ finished)
              × IsReceived c n (seqs (of j)) ca (receive_stream crc j (ring_of d j) ca).1
        one j ca v = rw (rings j) (receive_stream-IsReceived j (of j) ca (are j) lengths v)
