-- ===== src/Harbor/Parts.antt =====
-- The cases of `push_socket_data` for the parts of a frame take whole pieces at a time; they do what
-- their specification does byte by byte.
use sdy.Memory.{memcpy, take-memcpy, length-memcpy, memcpy_full}
use sdy.Base.{
  ==→eq, ==→ne, Bool, Bool-cases, List, Option, Option-cases, [], ap, append-nil, arith, drop,
  false, get_or, if◌then◌else◌, inl, inr, length, length-append, length-replicate, length-take, ltb,
  ltb→lt, lt→ltb, ne→==, none, not, refl, some, suc, sym, take, ℕ, ◌++◌, ◌-◌, ◌<◌, ◌==◌, ◌∙◌, ◌∷◌,
  ◌≡◌, ◌≤◌,
}
use sdy.Harbor.{Effect, forward_local_messsage}
use sdy.Harbor.Peer.{
  status_header, status_content, status_down, Slave, close_harbor, Turn, returns, goes_on, cleared,
  on_content, length_of, opened, give_up, on_header,
}
use sdy.Harbor.Machine.{
  head_part, body_part, awaits, view, Result, to_rx, refused, complete, then_do, feeds,
}
use sdy.Harbor.Collect.{then_do_pure, feeds-deaf, collect_more, collect_cut}

abbrev pub as_content : Slave → Slave
as_content s = record s { status = status_content }

abbrev pub as_header : Slave → Slave
as_header s = record s { status = status_header }

-- A frame's buffer is as long as the frame; a part that is complete is not kept, but for the text of
-- length 0.
pub record ReadsBody (s : Slave) : Type 0 where
  pub buffer_length : length s.recv_buffer ≡ s.frame_length
  pub within : s.read ≤ s.frame_length
  pub unfinished : s.read ≡ s.frame_length → s.read ≡ 0

pub record ReadsHead (s : Slave) : Type 0 where
  pub word : length s.size ≡ 4
  pub within : s.read < 4

pub opened-ReadsBody : (s : Slave) (word : List ℕ) → ReadsBody (opened s word)
opened-ReadsBody s word = record {
  buffer_length = length-replicate (length_of word) 0;
  within = omega arith;
  unfinished = λ e. refl;
}

module _ (found : ℕ → Bool) (self id : ℕ) where
  abbrev pub shown : Option Turn → Result
  shown none = none
  shown (some (returns es r)) = some (es, view r)
  shown (some (goes_on es r rest)) = then_do (some (es, view r)) (λ w. feeds found self id w rest)

  rest_by :
      (es : List Effect) (r : Slave) (rest : List ℕ)
      → then_do (some (es, view r)) (λ w. feeds found self id w rest)
        ≡ shown (some (if length rest == 0 then returns es r else goes_on es r rest))
  unfolding feeds
  rest_by es r [] = ap (λ fs. some (fs, view r)) (append-nil es)
  rest_by es r (b ∷ bs) = rw (ne→== (suc (length bs)) 0 (omega arith)) refl

  on_content_few :
      (s : Slave) (bytes : List ℕ)
      → ReadsBody s
      → length bytes < s.frame_length - s.read
      → feeds found self id (view (as_content s)) bytes
        ≡ shown (on_content found self (as_content s) bytes)
  unfolding on_content
  on_content_few s bytes v h =
      let n = length-take s.read s.recv_buffer in
      rw (lt→ltb _ _ h) (
        collect_more found self id (view (as_content s)) body_part s.frame_length
          (take s.read s.recv_buffer) bytes (omega (arith, n, v.buffer_length, v.within, h))
        ∙ ap (λ xs. some ([], to_rx (view (as_content s)) (awaits body_part s.frame_length xs)))
            (sym
              (take-memcpy s.recv_buffer s.read bytes (omega (arith, v.buffer_length, v.within)))))

  pub short_text : (msg : List ℕ) → length msg < 12 → forward_local_messsage found self msg ≡ none
  unfolding forward_local_messsage
  short_text msg h = rw (lt→ltb (length msg) 12 h) refl

  -- A frame of no bytes is too short to have a header.
  on_content_none :
      (s : Slave) (bytes : List ℕ)
      → ReadsBody s
      → 1 ≤ length bytes
      → s.read ≡ s.frame_length
      → feeds found self id (view (as_content s)) bytes
        ≡ shown (on_content found self (as_content s) bytes)
  unfolding on_content feeds
  on_content_none s [] v l e = absurd (omega (arith, l))
  on_content_none s (b ∷ bs) v l e =
      let need = s.frame_length - s.read in
      let got = take s.read s.recv_buffer ++ b ∷ [] in
      let full = memcpy s.recv_buffer s.read (take need (b ∷ bs)) in
      let z = v.unfinished e in
      let n = length-append (take s.read s.recv_buffer) (b ∷ []) in
      let m = length-take s.read s.recv_buffer in
      let past : ltb (length got) s.frame_length ≡ false = ground (arith, n) in
      let enough : ltb (suc (length bs)) need ≡ false = ground arith in
      let empty =
        length-memcpy s.recv_buffer s.read (take need (b ∷ bs))
          (omega (arith, length-take need (b ∷ bs), z, e, v.buffer_length)) in
      rw
        (
          past,
          enough,
          short_text got (omega (arith, n, m, z)),
          short_text full (omega (arith, empty, z, e, v.buffer_length)),
        )
        refl

  on_content_cut :
      (s : Slave) (bytes : List ℕ)
      → ReadsBody s
      → s.read < s.frame_length
      → s.frame_length - s.read ≤ length bytes
      → feeds found self id (view (as_content s)) bytes
        ≡ shown (on_content found self (as_content s) bytes)
  unfolding on_content
  on_content_cut s bytes v l h =
      let n = length-take s.read s.recv_buffer in
      let need = s.frame_length - s.read in
      let got = take s.read s.recv_buffer in
      let rest = drop need bytes in
      let read : length got ≡ s.read = omega (arith, n, v.buffer_length, l) in
      let enough : ltb (length bytes) need ≡ false = ground arith in
      let full : memcpy s.recv_buffer s.read (take need bytes) ≡ got ++ take need bytes =
        memcpy_full s.recv_buffer s.read (take need bytes)
          (omega (arith, length-take need bytes, v.buffer_length, l, h)) in
      rw (enough, full)
        (collect_cut found self id (view (as_content s)) body_part s.frame_length got bytes
            (omega (arith, read, l)) (omega (arith, read, l, h))
          ∙ ap
              (λ (k : ℕ).
                then_do
                  (complete found self (view (as_content s)) body_part
                    (got ++ take (s.frame_length - k) bytes))
                  (λ w. feeds found self id w (drop (s.frame_length - k) bytes)))
              read
          ∙ elim (Option-cases (forward_local_messsage found self (got ++ take need bytes))) [
            | inl e ↦ rw e refl
            | inr e ↦ rw (e.1) (rest_by e.0 (cleared (as_content s)) rest)
          ])

  pub on_content_lem :
      (s : Slave) (bytes : List ℕ)
      → ReadsBody s
      → 1 ≤ length bytes
      → feeds found self id (view (as_content s)) bytes
        ≡ shown (on_content found self (as_content s) bytes)
  on_content_lem s bytes v l = elim (Bool-cases (ltb (length bytes) (s.frame_length - s.read))) [
    | inl few ↦ on_content_few s bytes v (ltb→lt _ _ few)
    | inr many ↦
        let w = v.within in
        let h : s.frame_length - s.read ≤ length bytes = ground arith in
        elim (Bool-cases (s.read == s.frame_length)) [
          | inl e ↦ on_content_none s bytes v l (==→eq _ _ e)
          | inr e ↦ on_content_cut s bytes v (omega (arith, w, ==→ne _ _ e)) h
        ]
  ]

  on_header_few :
      (s : Slave) (bytes : List ℕ)
      → ReadsHead s
      → length bytes < 4 - s.read
      → feeds found self id (view (as_header s)) bytes
        ≡ shown (on_header found self (as_header s) bytes)
  unfolding on_header
  on_header_few s bytes v h =
      let n = length-take s.read s.size in
      rw (lt→ltb _ _ h) (
        collect_more found self id (view (as_header s)) head_part 4 (take s.read s.size) bytes
          (omega (arith, n, v.word, v.within, h))
        ∙ ap (λ xs. some ([], to_rx (view (as_header s)) (awaits head_part 4 xs)))
            (sym (take-memcpy s.size s.read bytes (omega (arith, v.word, v.within)))))

  opened_by :
      (s : Slave) (rest : List ℕ)
      → ReadsBody s
      → feeds found self id (view (as_content s)) rest
        ≡ shown (
            if length rest == 0
            then some (returns [] (as_content s))
            else on_content found self (as_content s) rest)
  unfolding feeds
  opened_by s [] v = refl
  opened_by s (b ∷ bs) v =
      rw (ne→== (suc (length bs)) 0 (omega arith)) (on_content_lem s (b ∷ bs) v (omega arith))

  -- The head is complete, and `rest` follows it.
  head_done :
      (s : Slave) (word rest : List ℕ)
      → then_do
          (complete found self (view (as_header s)) head_part word)
          (λ w. feeds found self id w rest)
        ≡ shown (
            if not (get_or word 0 0 == 0)
            then some (give_up (record (as_header s) { size = word }))
            else if length rest == 0
            then some (returns [] (opened (as_header s) word))
            else on_content found self (opened (as_header s) word) rest)
  unfolding give_up close_harbor
  head_done s word rest = elim (Bool-cases (get_or word 0 0 == 0)) [
    | inl e ↦ rw e (
        then_do_pure (view (opened (as_header s) word)) (λ w. feeds found self id w rest)
        ∙ opened_by (opened (as_header s) word) rest (opened-ReadsBody (as_header s) word))
    | inr e ↦
        rw (e, feeds-deaf found self id (refused (view (as_header s))).1 status_down rest)
          (ap (λ fs. some (fs, (refused (view (as_header s))).1))
            (append-nil (refused (view (as_header s))).0))
  ]

  pub on_header_lem :
      (s : Slave) (bytes : List ℕ)
      → ReadsHead s
      → feeds found self id (view (as_header s)) bytes
        ≡ shown (on_header found self (as_header s) bytes)
  unfolding on_header
  on_header_lem s bytes v = elim (Bool-cases (ltb (length bytes) (4 - s.read))) [
    | inl few ↦ on_header_few s bytes v (ltb→lt _ _ few)
    | inr many ↦
        let w = v.within in
        let h : 4 - s.read ≤ length bytes = ground arith in
        let got = take s.read s.size in
        let read : length got ≡ s.read = omega (arith, length-take s.read s.size, v.word, w) in
        let full : memcpy s.size s.read (take (4 - s.read) bytes) ≡ got ++ take (4 - s.read) bytes =
          memcpy_full s.size s.read (take (4 - s.read) bytes)
            (omega (arith, length-take (4 - s.read) bytes, v.word, w, h)) in
        rw (many, full)
          (collect_cut found self id (view (as_header s)) head_part 4 got bytes
              (omega (arith, read, w)) (omega (arith, read, h))
            ∙ ap
                (λ (k : ℕ).
                  then_do
                    (complete found self (view (as_header s)) head_part (got ++ take (4 - k) bytes))
                    (λ w. feeds found self id w (drop (4 - k) bytes)))
                read
            ∙ head_done s (got ++ take (4 - s.read) bytes) (drop (4 - s.read) bytes))
  ]
