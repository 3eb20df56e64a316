-- ===== src/Single/Delivery.antt =====
-- Connections that deliver what was sent in pieces, and then end.
use n_backup.Prelude.{
  ℕ, ◌+◌, ◌≤◌, ◌<◌, ◌≡◌, refl, sym, ap, ◌∙◌, inl, inr, arith, Bool, true, false, List, [], ◌∷◌,
  ◌++◌, append_assoc, length, take, drop, All, Option, none, some, ◌==◌, take-append-drop,
  Bool-cases, length-drop,
}
use n_backup.Single.{
  ReadEnd, at_eof, broken, Read, SackLoop, Received, goes_on, returned, start_receiving, flush_file,
  write_file, end_read, send_sack, sack_read, read_once, receive_with_sack,
}
use n_backup.Single.Laws.{
  delivered, sees_eof, IsReceived, IsStored, IsCut, receive_with_sack-IsReceived,
}

-- One read of a connection: how many bytes it takes at most, and the failures of the disk behind it.
pub record Piece : Type 0 where
  pub size : ℕ
  pub on_write : Option ℕ
  pub on_sack : Option ℕ
  pub sack_sent : Bool

-- The reads that deliver what was sent in such pieces, until the connection ends.
unfoldable pub deliver : List ℕ → List Piece → ReadEnd → Option ℕ → List Read
deliver sent [] e fault =
    record {
      bytes = [];
      ended = some e;
      on_write = none;
      on_sack = none;
      sack_sent = true;
      on_end = fault;
    }
    ∷ []
deliver sent (p ∷ ps) e fault =
    record {
      bytes = take p.size sent;
      ended = none;
      on_write = p.on_write;
      on_sack = p.on_sack;
      sack_sent = p.sack_sent;
      on_end = none;
    }
    ∷ deliver (drop p.size sent) ps e fault

unfoldable pub sizes : List Piece → ℕ
sizes [] = 0
sizes (p ∷ ps) = p.size + sizes ps

delivered-deliver :
    (sent : List ℕ) (ps : List Piece) (e : ReadEnd) (fault : Option ℕ)
    → (rest : List ℕ) × (delivered (deliver sent ps e fault) ++ rest ≡ sent)
unfolding deliver delivered
delivered-deliver sent [] e fault = (sent, refl)
delivered-deliver sent (p ∷ ps) e fault =
    let (rest, eq) = delivered-deliver (drop p.size sent) ps e fault in
    (
      rest,
      append_assoc (take p.size sent) _ rest
          ∙ ap (λ x. take p.size sent ++ x) eq
          ∙ take-append-drop p.size sent,
    )

delivered_all :
    (sent : List ℕ) (ps : List Piece) (e : ReadEnd) (fault : Option ℕ)
    → length sent ≤ sizes ps
    → delivered (deliver sent ps e fault) ≡ sent
unfolding deliver delivered sizes
delivered_all [] [] e fault h = refl
delivered_all (x ∷ sent) [] e fault h = absurd (omega arith)
delivered_all sent (p ∷ ps) e fault h =
    ap (λ x. take p.size sent ++ x)
      (delivered_all (drop p.size sent) ps e fault (omega (arith, h, length-drop p.size sent)))
    ∙ take-append-drop p.size sent

sees_eof-deliver :
    (sent : List ℕ) (ps : List Piece) (fault : Option ℕ)
    → sees_eof (deliver sent ps broken fault) ≡ false
unfolding deliver sees_eof
sees_eof-deliver sent [] fault = refl
sees_eof-deliver sent (p ∷ ps) fault = sees_eof-deliver (drop p.size sent) ps fault

-- No write of the reads fails.
abbrev pub IsClean : Piece → Type 0
IsClean p = (p.on_write ≡ none) × (p.on_sack ≡ none)

abbrev succeeds : Received → Bool
succeeds (goes_on r) = true
succeeds (returned b r) = b

abbrev IsReturn : Received → Type 0
IsReturn (goes_on r) = ⊥
IsReturn (returned b r) = Unit {0}

module _ (io_buffer_size sack_interval : ℕ) where
  abbrev pub receive : List Read → SackLoop → Received
  receive = receive_with_sack io_buffer_size sack_interval

  -- A connection that ends makes the call return.
  receive_returns :
      (sent : List ℕ) (ps : List Piece) (e : ReadEnd) (fault : Option ℕ) (r : SackLoop)
      → IsReturn (receive (deliver sent ps e fault) r)
  unfolding receive_with_sack deliver read_once end_read
  receive_returns sent [] at_eof fault r = tt
  receive_returns sent [] broken fault r = tt
  receive_returns sent (p ∷ ps) e fault r =
      by_read (receive_returns (drop p.size sent) ps e fault) (
        read_once io_buffer_size sack_interval
          (record {
            bytes = take p.size sent;
            ended = none;
            on_write = p.on_write;
            on_sack = p.on_sack;
            sack_sent = p.sack_sent;
            on_end = none;
          })
          r)
    where
      by_read :
          ((r' : SackLoop) → IsReturn (receive (deliver (drop p.size sent) ps e fault) r'))
          → (o : Received)
          → IsReturn (elim o [
            | goes_on r' ↦ receive (deliver (drop p.size sent) ps e fault) r'
            | returned ok r' ↦ returned ok r'
          ])
      by_read rec (goes_on r') = rec r'
      by_read rec (returned ok r') = tt

  write_clean :
      (p : List ℕ) (r : SackLoop) → (write_file io_buffer_size sack_interval none p r).0 ≡ true
  unfolding write_file flush_file
  write_clean p r = ground arith

  sack_clean :
      (bytes : List ℕ) (heard : Bool) (r : SackLoop)
      → succeeds (
          sack_read io_buffer_size sack_interval
            (record {
              bytes = bytes;
              ended = none;
              on_write = none;
              on_sack = none;
              sack_sent = heard;
              on_end = none;
            })
            r)
        ≡ true
  unfolding sack_read send_sack end_read flush_file
  sack_clean bytes heard r = ground arith

  read_clean :
      (bytes : List ℕ) (heard : Bool) (r : SackLoop)
      → succeeds (
          read_once io_buffer_size sack_interval
            (record {
              bytes = bytes;
              ended = none;
              on_write = none;
              on_sack = none;
              sack_sent = heard;
              on_end = none;
            })
            r)
        ≡ true
  unfolding read_once end_read
  read_clean bytes heard r = elim (Bool-cases (length bytes == 0)) [
    | inl e ↦ rw e refl
    | inr e ↦ rw (e, write_clean bytes r) (sack_clean bytes heard _)
  ]

  receive_clean :
      (sent : List ℕ) (ps : List Piece) (r : SackLoop)
      → All IsClean ps
      → succeeds (receive (deliver sent ps at_eof none) r) ≡ true
  unfolding receive_with_sack deliver
  receive_clean sent [] r v = unfold read_once end_read flush_file in refl
  receive_clean sent (p ∷ ps) r ((w, s), vs) =
      rw (w, s)
        (by_read (λ r'. receive_clean (drop p.size sent) ps r' vs)
          (read_once io_buffer_size sack_interval
            (record {
              bytes = take p.size sent;
              ended = none;
              on_write = none;
              on_sack = none;
              sack_sent = p.sack_sent;
              on_end = none;
            })
            r)
          (read_clean (take p.size sent) p.sack_sent r))
    where
      by_read :
          ((r' : SackLoop)
            → succeeds (receive (deliver (drop p.size sent) ps at_eof none) r') ≡ true)
          → (o : Received) → succeeds o ≡ true
          → succeeds (elim o [
            | goes_on r' ↦ receive (deliver (drop p.size sent) ps at_eof none) r'
            | returned ok r' ↦ returned ok r'
          ])
            ≡ true
      by_read rec (goes_on r') h = rec r'
      by_read rec (returned ok r') h = h

  -- A connection that breaks, and one that ends behind all that was sent with no write failing.
  pub broken_cut :
      (file sent : List ℕ) (ps : List Piece) (fault : Option ℕ)
      → 0 < sack_interval
      → (r : SackLoop) × (receive
            (deliver sent ps broken fault)
            (start_receiving file (length file))
          ≡ returned false r)
        × IsCut (file ++ sent) r
  broken_cut file sent ps fault pos =
      by_result (receive (deliver sent ps broken fault) (start_receiving file (length file))) refl
        (receive_returns sent ps broken fault _)
        (receive_with_sack-IsReceived io_buffer_size sack_interval file
          (deliver sent ps broken fault) pos)
    where
      by_result :
          (o : Received)
          → receive (deliver sent ps broken fault) (start_receiving file (length file)) ≡ o
          → IsReturn o
          → IsReceived io_buffer_size sack_interval
              (length file)
              (file ++ delivered (deliver sent ps broken fault))
              (sees_eof (deliver sent ps broken fault))
              o
          → (r : SackLoop) × (receive
                (deliver sent ps broken fault)
                (start_receiving file (length file))
              ≡ returned false r)
            × IsCut (file ++ sent) r
      by_result (goes_on r) e h v = absurd h
      by_result (returned true r) e h (eof, v) =
          absurd (ground (arith, sees_eof-deliver sent ps fault))
      by_result (returned false r) e h v =
          let (rest, eq) = delivered-deliver sent ps broken fault in
          (
            r,
            e,
            record {
              rest = v.rest ++ rest;
              content =
                  sym (append_assoc r.file v.rest rest)
                  ∙ ap (λ x. x ++ rest) v.content
                  ∙ append_assoc file _ rest
                  ∙ ap (λ x. file ++ x) eq;
              acknowledged = v.acknowledged;
            },
          )

  pub clean_stored :
      (file sent : List ℕ) (ps : List Piece)
      → 0 < sack_interval
      → All IsClean ps
      → length sent ≤ sizes ps
      → (r : SackLoop) × (receive (deliver sent ps at_eof none) (start_receiving file (length file))
          ≡ returned true r)
        × IsStored (length file) (file ++ sent) r
  clean_stored file sent ps pos clean enough =
      by_result (receive (deliver sent ps at_eof none) (start_receiving file (length file))) refl
        (receive_returns sent ps at_eof none _) (receive_clean sent ps _ clean)
        (rw (delivered_all sent ps at_eof none enough) at (
          receive_with_sack-IsReceived io_buffer_size sack_interval file
            (deliver sent ps at_eof none) pos))
    where
      by_result :
          (o : Received)
          → receive (deliver sent ps at_eof none) (start_receiving file (length file)) ≡ o
          → IsReturn o
          → succeeds o ≡ true
          → IsReceived io_buffer_size sack_interval
              (length file)
              (file ++ sent)
              (sees_eof (deliver sent ps at_eof none))
              o
          → (r : SackLoop) × (receive
                (deliver sent ps at_eof none)
                (start_receiving file (length file))
              ≡ returned true r)
            × IsStored (length file) (file ++ sent) r
      by_result (goes_on r) e h s v = absurd h
      by_result (returned true r) e h s (eof, v) = (r, e, v)
      by_result (returned false r) e h s v = absurd (wrong s)
        where
          wrong : succeeds (returned false r) ≡ true → ⊥
          wrong s = ground arith
