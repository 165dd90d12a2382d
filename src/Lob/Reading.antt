-- ===== src/Lob/Reading.antt =====
-- What a read returns of the contents of a LOB.
use python_cx_oracle.Prelude.{
  ℕ, ◌-◌, ◌%◌, ◌^◌, ◌≤◌, ◌<◌, ◌≡◌, refl, ap, ◌∙◌, Bool, true, false, if◌then◌else◌, none, some,
  List, ◌==◌, take, drop, length, take_all, length-drop_eq, arith,
}
use python_cx_oracle.Prelude.Int.{pos, negsuc}
use python_cx_oracle.Error.{Result, ok, err, no_memory}
use python_cx_oracle.Action.{pure, lift, ◌>>=◌, >>=-ok}
use python_cx_oracle.Py.{Value}
use python_cx_oracle.Lob.Methods.{
  Lob, LobApi, lob_value, as_uint64, whole, rest_amount, amount_to_read, read_into, read_amount,
  internal_read, read, str,
}

module _ {S : Type 0} (api : LobApi S) (lob : Lob) where
  -- What ODPI-C documents of a LOB: it holds units (bytes, or characters that are read as bytes),
  -- counted from one; reading changes nothing and returns at most the units that there are. What
  -- Python documents of PyMem_Malloc: there is room for a buffer, or there is not.
  pub record Store : Type 0 where
    pub contents : S → List ℕ
    pub bytes_of : List ℕ → List ℕ
    pub room : ℕ → ℕ
    pub size : (w : S) → api.get_size lob.handle w ≡ (ok (length (contents w)), w)
    pub size_bound : (w : S) → length (contents w) < whole
    pub buffer_size : (n : ℕ) (w : S) → api.get_buffer_size lob.handle n w ≡ (ok (room n), w)
    pub has_room : ℕ → S → Bool
    pub allocates : (n : ℕ) (w : S) → api.malloc n w ≡ (ok (has_room n w), w)
    pub reads :
        (offset n : ℕ) (w : S)
        → 1 ≤ offset
        → api.read_bytes lob.handle offset n (room n) w
          ≡ (ok (bytes_of (take n (drop (offset - 1) (contents w)))), w)

  module _ (store : Store) where
    open store use {
      contents, bytes_of, room, size, size_bound, buffer_size, has_room, allocates, reads,
    }

    -- The value of some units.
    abbrev pub value_of_units : List ℕ → Result Value
    value_of_units xs = lob_value api.runtime lob (bytes_of xs)

    -- What a read of an amount of units returns: their value, or MemoryError where there is no room for
    -- the buffer of that amount.
    abbrev pub read_units : ℕ → S → List ℕ → Result Value
    read_units n w xs = if has_room (room n) w then value_of_units xs else err no_memory

    -- The units from an offset to the end, read with the amount that the code computes.
    abbrev pub read_from : ℕ → S → Result Value
    read_from offset w =
        read_units (rest_amount (length (contents w)) offset) w (drop (offset - 1) (contents w))

    read_amount-take :
        (offset n : ℕ) (w : S)
        → 1 ≤ offset
        → read_amount api lob offset n w
          ≡ (read_units n w (take n (drop (offset - 1) (contents w))), w)
    read_amount-take offset n w h =
        >>=-ok (api.get_buffer_size lob.handle n)
          (λ size. api.malloc size >>= read_into api lob offset n size) (buffer_size n w)
        ∙ >>=-ok (api.malloc (room n)) (read_into api lob offset n (room n)) (allocates (room n) w)
        ∙ by_room (has_room (room n) w)
      where
        by_room :
            (b : Bool)
            → read_into api lob offset n (room n) b w ≡ (
              if b then value_of_units (take n (drop (offset - 1) (contents w))) else err no_memory,
              w,
            )
        by_room true =
            >>=-ok (api.read_bytes lob.handle offset n (room n))
              (λ b. lift (lob_value api.runtime lob b)) (reads offset n w h)
        by_room false = refl

    rest_covers :
        (offset : ℕ) (xs : List ℕ)
        → 1 ≤ offset
        → length xs < whole
        → take (rest_amount (length xs) offset) (drop (offset - 1) xs) ≡ drop (offset - 1) xs
    rest_covers offset xs h b =
        take_all (rest_amount (length xs) offset) (drop (offset - 1) xs)
          (let l = length-drop_eq (offset - 1) xs in ground (arith, l, h, b))

    read_rest :
        (offset : ℕ) (w : S)
        → 1 ≤ offset
        → internal_read api lob offset whole w ≡ (read_from offset w, w)
    unfolding internal_read
    read_rest offset w h =
        >>=-ok (amount_to_read api lob offset whole) (read_amount api lob offset) {w = w}
          (>>=-ok (api.get_size lob.handle) (λ size. pure (rest_amount size offset)) (size w))
        ∙ read_amount-take offset (rest_amount (length (contents w)) offset) w h
        ∙ ap (λ xs. (read_units (rest_amount (length (contents w)) offset) w xs, w))
            (rest_covers offset (contents w) h (size_bound w))

    read_some :
        (offset n : ℕ) (w : S)
        → 1 ≤ offset
        → n < whole
        → internal_read api lob offset n w
          ≡ (read_units n w (take n (drop (offset - 1) (contents w))), w)
    unfolding internal_read
    read_some offset n w h b =
        >>=-ok (amount_to_read api lob offset n) (read_amount api lob offset) {w = w}
          (let e : (n == whole) ≡ false = ground arith in rw e refl)
        ∙ read_amount-take offset n w h

    -- Reading from an offset of at least one without an amount, or with the amount -1, returns the
    -- contents from there to the end, which is nothing behind the end; str, and a read without
    -- arguments, return all of it; with an amount below 2 ^ 64 - 1 the read returns as much, or what
    -- there is. Each raises MemoryError instead where the buffer for the amount that is read cannot be
    -- allocated. ODPI-C must return the units that it holds and leave the LOB as it is.
    pub read_returns :
        (offset : ℕ) (w : S)
        → 1 ≤ offset
        → offset < 2 ^ 64
        → (read api lob (some (pos offset)) none w ≡ (read_from offset w, w))
          × (read api lob (some (pos offset)) (some (negsuc 0)) w ≡ (read_from offset w, w))
          × (read api lob none none w ≡ (read_from 1 w, w))
          × (str api lob w ≡ (read_from 1 w, w))
          × ((n : ℕ)
              → n < whole
              → read api lob (some (pos offset)) (some (pos n)) w
                ≡ (read_units n w (take n (drop (offset - 1) (contents w))), w))
    unfolding read str as_uint64
    read_returns offset w h b =
        let e : offset % 2 ^ 64 ≡ offset = omega arith in
        (
          rw e (read_rest offset w h),
          rw e (read_rest offset w h),
          read_rest 1 w (omega arith),
          read_rest 1 w (omega arith),
          λ n l. let f : n % 2 ^ 64 ≡ n = omega arith in rw (e, f) (read_some offset n w h l),
        )
