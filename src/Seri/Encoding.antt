-- ===== src/Seri/Encoding.antt =====
-- The byte format of lua-seri.c, and that the packing functions write it.
use sdy.Seri.Sizes.{Sized, SizedAll, SizedPairs, to_int-eq, not_below_zero, up_to-eq}
use sdy.Base.{
  Bool, List, Option, [], ap, append-nil, append_assoc, arith, false, if◌then◌else◌, leb, length,
  ltb, lt→ltb, none, not, refl, some, some-eq_iff, subst, sym, true, ℕ, ◌++◌, ◌+◌, ◌<◌, ◌==◌, ◌>>=◌,
  ◌^◌, ◌∙◌, ◌∷◌, ◌≡◌,
}
use sdy.Seri.Value.{
  Value, nil, boolean, integer, real, pointer, string, table, meta_table, other, Values, none_left,
  also, Pairs, no_pair, pair, raw_len, is_nil, in_array,
}
use sdy.Seri.Writer.{WriteBlock, wb_init, wb_push, bytes, seri}
use sdy.Seri.Pack.{
  combine_type, le_bytes, wb_nil, wb_boolean, fits_int32, wb_integer, wb_real, wb_pointer, to_int,
  wb_string, wb_table_head, pack_one, pack_array, pack_hash, pack_meta, luaseri_pack,
}
use sdy.Seri.Bytes.{IsValid, Pushed, wb_push-Pushed, wb_init-IsValid, take-length, seri-bytes}

abbrev pub tagged : ℕ → ℕ → List ℕ → List ℕ
tagged t n xs = combine_type t n ∷ xs

unfoldable pub enc_integer : ℕ → List ℕ
enc_integer v =
    if v == 0
    then tagged 2 0 []
    else if not (fits_int32 v)
    then tagged 2 6 (le_bytes 8 v)
    else if leb (2 ^ 63) v
    then tagged 2 4 (le_bytes 4 v)
    else if ltb v 0x100
    then tagged 2 1 (le_bytes 1 v)
    else if ltb v 0x10000
    then tagged 2 2 (le_bytes 2 v)
    else tagged 2 4 (le_bytes 4 v)

unfoldable pub enc_string : List ℕ → List ℕ
enc_string s =
    if ltb (length s) 32
    then tagged 4 (length s) s
    else if ltb (length s) 0x10000
    then tagged 5 2 (le_bytes 2 (length s) ++ s)
    else tagged 5 4 (le_bytes 4 (length s) ++ s)

unfoldable pub enc_head : ℕ → List ℕ
unfolding enc_integer
enc_head n = if leb 31 n then tagged 6 31 (enc_integer n) else tagged 6 n []

unfoldable mutual
  unfolding enc_integer enc_string enc_head

  pub enc : Value → List ℕ
  enc nil = 0 ∷ []
  enc (boolean v) = tagged 1 (if v then 1 else 0) []
  enc (integer v) = enc_integer v
  enc (real v) = tagged 2 8 v
  enc (pointer v) = 3 ∷ v
  enc (string v) = enc_string v
  enc (table vs ps) = enc_head (raw_len vs) ++ (enc_values vs ++ enc_hash (raw_len vs) ps)
  enc (meta_table ps) = tagged 6 0 (enc_meta ps)
  enc other = []

  pub enc_values : Values → List ℕ
  enc_values none_left = []
  enc_values (also v vs) = enc v ++ enc_values vs

  pub enc_hash : ℕ → Pairs → List ℕ
  enc_hash n no_pair = 0 ∷ []
  enc_hash n (pair k v ps) =
      if in_array n k then enc_hash n ps else enc k ++ (enc v ++ enc_hash n ps)

  pub enc_meta : Pairs → List ℕ
  enc_meta no_pair = 0 ∷ []
  enc_meta (pair k v ps) = if is_nil k then 0 ∷ [] else enc k ++ (enc v ++ enc_meta ps)

Pushed-trans :
    (b c d : WriteBlock) (s t : List ℕ) → Pushed b s c → Pushed c t d → Pushed b (s ++ t) d
Pushed-trans b c d s t p q =
    (q.0, q.1 ∙ ap (λ (x : List ℕ). x ++ t) p.1 ∙ append_assoc (bytes b) s t)

Pushed-if :
    (t : Bool) (b c d : WriteBlock) (x y : List ℕ)
    → Pushed b x c
    → Pushed b y d
    → Pushed b (if t then x else y) (if t then c else d)
Pushed-if true b c d x y p q = p
Pushed-if false b c d x y p q = q

push_twice :
    (b : WriteBlock) (s t : List ℕ) → IsValid b → Pushed b (s ++ t) (wb_push (wb_push b s) t)
push_twice b s t v =
    let p = wb_push-Pushed b s v in
    Pushed-trans b (wb_push b s) (wb_push (wb_push b s) t) s t p
      (wb_push-Pushed (wb_push b s) t p.0)

wb_integer-Pushed : (b : WriteBlock) (v : ℕ) → IsValid b → Pushed b (enc_integer v) (wb_integer b v)
unfolding wb_integer enc_integer
wb_integer-Pushed b v h =
    Pushed-if (v == 0) b _ _ _ _ (wb_push-Pushed b (combine_type 2 0 ∷ []) h) (
      Pushed-if (not (fits_int32 v)) b _ _ _ _
        (push_twice b (combine_type 2 6 ∷ []) (le_bytes 8 v) h)
        (Pushed-if (leb (2 ^ 63) v) b _ _ _ _
          (push_twice b (combine_type 2 4 ∷ []) (le_bytes 4 v) h)
          (Pushed-if (ltb v 0x100) b _ _ _ _ (push_twice b (combine_type 2 1 ∷ []) (le_bytes 1 v) h)
            (Pushed-if (ltb v 0x10000) b _ _ _ _
              (push_twice b (combine_type 2 2 ∷ []) (le_bytes 2 v) h)
              (push_twice b (combine_type 2 4 ∷ []) (le_bytes 4 v) h)))))

push_thrice :
    (b : WriteBlock) (s t u : List ℕ)
    → IsValid b
    → Pushed b (s ++ (t ++ u)) (wb_push (wb_push (wb_push b s) t) u)
push_thrice b s t u v =
    let p = wb_push-Pushed b s v in
    Pushed-trans b (wb_push b s) _ s (t ++ u) p (push_twice (wb_push b s) t u p.0)

short_string :
    (b : WriteBlock) (s : List ℕ) (n : ℕ)
    → IsValid b
    → let c = wb_push b (n ∷ []) in Pushed b (n ∷ s) (if ltb 0 (length s) then wb_push c s else c)
short_string b [] n v = wb_push-Pushed b (n ∷ []) v
short_string b (x ∷ s) n v =
    let pos : ltb 0 (length (x ∷ s)) ≡ true = lt→ltb 0 (length (x ∷ s)) (omega arith) in
    rw pos (push_twice b (n ∷ []) (x ∷ s) v)

wb_string-Pushed :
    (b : WriteBlock) (s : List ℕ)
    → IsValid b
    → length s < 2 ^ 31
    → Pushed b (enc_string s) (wb_string b s (to_int (length s)))
unfolding wb_string enc_string
wb_string-Pushed b s h small =
    rw (to_int-eq (length s) small, not_below_zero (length s) small, take-length s)
      (Pushed-if (ltb (length s) 32) b _ _ _ _ (short_string b s (combine_type 4 (length s)) h) (
        Pushed-if (ltb (length s) 0x10000) b _ _ _ _
          (push_thrice b (combine_type 5 2 ∷ []) (le_bytes 2 (length s)) s h)
          (push_thrice b (combine_type 5 4 ∷ []) (le_bytes 4 (length s)) s h)))

wb_head-Pushed :
    (b : WriteBlock) (n : ℕ)
    → IsValid b
    → n < 2 ^ 31
    → Pushed b (enc_head n) (wb_table_head b (to_int n))
unfolding wb_table_head enc_head
wb_head-Pushed b n h small =
    let p = wb_push-Pushed b (combine_type 6 31 ∷ []) h in
    rw (to_int-eq n small, not_below_zero n small)
      (Pushed-if (leb 31 n) b _ _ _ _
        (Pushed-trans b (wb_push b (combine_type 6 31 ∷ [])) _ _ _ p (wb_integer-Pushed _ n p.0))
        (wb_push-Pushed b (combine_type 6 n ∷ []) h))

if_none :
    (t : Bool) (o : Option WriteBlock) (c : WriteBlock)
    → (if t then none else o) ≡ some c
    → o ≡ some c
if_none true o c e = absurd (cc)
if_none false o c e = e

bind_some :
    (o : Option WriteBlock) (f : WriteBlock → Option WriteBlock) (c : WriteBlock)
    → (o >>= f) ≡ some c
    → (b : WriteBlock) × (o ≡ some b) × (f b ≡ some c)
bind_some none f c e = absurd (cc)
bind_some (some b) f c e = (b, refl, e)

written :
    (t : Bool) (b d c : WriteBlock) (s : List ℕ)
    → Pushed b s d
    → (if t then none else some d) ≡ some c
    → Pushed b s c
written t b d c s p e = subst (Pushed b s) ((some-eq_iff d c).0 (if_none t (some d) c e)) p

either :
    (t : Bool) (b c : WriteBlock) (o p : Option WriteBlock) (x y : List ℕ)
    → (o ≡ some c → Pushed b x c)
    → (p ≡ some c → Pushed b y c)
    → (if t then o else p) ≡ some c
    → Pushed b (if t then x else y) c
either true b c o p x y f g e = f e
either false b c o p x y f g e = g e

mutual
  unfolding pack_one enc wb_nil wb_boolean wb_real wb_pointer

  pack_one-enc :
      (d : ℕ) (b : WriteBlock) (v : Value) (c : WriteBlock)
      → IsValid b
      → Sized v
      → pack_one d b v ≡ some c
      → Pushed b (enc v) c
  pack_one-enc d b nil c h z e = written _ b _ c _ (wb_push-Pushed b (0 ∷ []) h) e
  pack_one-enc d b (boolean v) c h z e = written _ b _ c _ (wb_push-Pushed b _ h) e
  pack_one-enc d b (integer v) c h z e = written _ b _ c _ (wb_integer-Pushed b v h) e
  pack_one-enc d b (real v) c h z e = written _ b _ c _ (push_twice b _ v h) e
  pack_one-enc d b (pointer v) c h z e = written _ b _ c _ (push_twice b (3 ∷ []) v h) e
  pack_one-enc d b (string v) c h z e = written _ b _ c _ (wb_string-Pushed b v h z) e
  pack_one-enc d b (table vs ps) c h z e =
      let p = wb_head-Pushed b (raw_len vs) h z.0 in
      let packed = λ (n : ℕ).
        pack_array n (d + 1) (wb_table_head b (to_int (raw_len vs))) vs >>= λ b'.
        pack_hash n (d + 1) b' ps in
      let (b', e1, e2) =
        bind_some _ _ c (sym (ap packed (up_to-eq (raw_len vs) z.0)) ∙ if_none _ _ c e) in
      let q = pack_array-enc (d + 1) _ vs b' p.0 z.1 e1 in
      let r = pack_hash-enc (raw_len vs) (d + 1) b' ps c q.0 z.2 e2 in
      Pushed-trans b _ c _ _ p (Pushed-trans _ b' c _ _ q r)
  pack_one-enc d b (meta_table ps) c h z e =
      let p = wb_push-Pushed b (combine_type 6 0 ∷ []) h in
      Pushed-trans b _ c _ _ p (pack_meta-enc (d + 1) _ ps c p.0 z (if_none _ _ c e))
  pack_one-enc d b other c h z e = absurd (cc)

  pack_array-enc :
      (d : ℕ) (b : WriteBlock) (vs : Values) (c : WriteBlock)
      → IsValid b
      → SizedAll vs
      → pack_array (raw_len vs) d b vs ≡ some c
      → Pushed b (enc_values vs) c
  pack_array-enc d b none_left c h z e =
      subst (Pushed b []) ((some-eq_iff b c).0 e) (h, sym (append-nil (bytes b)))
  pack_array-enc d b (also v vs) c h z e =
      let (b', e1, e2) = bind_some _ _ c e in
      let p = pack_one-enc d b v b' h z.0 e1 in
      Pushed-trans b b' c _ _ p (pack_array-enc d b' vs c p.0 z.1 e2)

  pack_hash-enc :
      (n d : ℕ) (b : WriteBlock) (ps : Pairs) (c : WriteBlock)
      → IsValid b
      → SizedPairs ps
      → pack_hash n d b ps ≡ some c
      → Pushed b (enc_hash n ps) c
  pack_hash-enc n d b no_pair c h z e =
      subst (Pushed b (0 ∷ [])) ((some-eq_iff _ c).0 e) (wb_push-Pushed b (0 ∷ []) h)
  pack_hash-enc n d b (pair k v ps) c h z e =
      either (in_array n k) b c _ _ _ _ (pack_hash-enc n d b ps c h z.2)
        (λ q.
          let (b', e1, e') = bind_some _ _ c q in
          let (b'', e2, e3) = bind_some _ _ c e' in
          let p = pack_one-enc d b k b' h z.0 e1 in
          let r = pack_one-enc d b' v b'' p.0 z.1 e2 in
          Pushed-trans b b' c _ _ p
            (Pushed-trans b' b'' c _ _ r (pack_hash-enc n d b'' ps c r.0 z.2 e3)))
        e

  pack_meta-enc :
      (d : ℕ) (b : WriteBlock) (ps : Pairs) (c : WriteBlock)
      → IsValid b
      → SizedPairs ps
      → pack_meta d b ps ≡ some c
      → Pushed b (enc_meta ps) c
  pack_meta-enc d b no_pair c h z e =
      subst (Pushed b (0 ∷ [])) ((some-eq_iff _ c).0 e) (wb_push-Pushed b (0 ∷ []) h)
  pack_meta-enc d b (pair k v ps) c h z e =
      either (is_nil k) b c _ _ _ _
        (λ q. subst (Pushed b (0 ∷ [])) ((some-eq_iff _ c).0 q) (wb_push-Pushed b (0 ∷ []) h))
        (λ q.
          let (b', e1, e') = bind_some _ _ c q in
          let (b'', e2, e3) = bind_some _ _ c e' in
          let p = pack_one-enc d b k b' h z.0 e1 in
          let r = pack_one-enc d b' v b'' p.0 z.1 e2 in
          Pushed-trans b b' c _ _ p
            (Pushed-trans b' b'' c _ _ r (pack_meta-enc d b'' ps c r.0 z.2 e3)))
        e

-- When `luaseri_pack` does not raise an error, it returns the encodings of the values, one after the
-- other. The conditions are that the strings, the array parts and the result have sizes that an `int`
-- holds.
pub luaseri_pack-enc :
    (vs : Values) (out : List ℕ)
    → SizedAll vs
    → length out < 2 ^ 31
    → luaseri_pack vs ≡ some out
    → out ≡ enc_values vs
unfolding luaseri_pack
luaseri_pack-enc vs out z whole e = go (pack_array (raw_len vs) 0 wb_init vs) refl e
  where
    go :
        (o : Option WriteBlock)
        → pack_array (raw_len vs) 0 wb_init vs ≡ o
        → (o >>= (λ b. some (seri b))) ≡ some out
        → out ≡ enc_values vs
    go none q e = absurd (cc)
    go (some b) q e =
        let p = pack_array-enc 0 wb_init vs b wb_init-IsValid.0 z q in
        sym ((some-eq_iff (seri b) out).0 e)
        ∙ seri-bytes b p.0
        ∙ p.1
        ∙ ap (λ (t : List ℕ). t ++ enc_values vs) wb_init-IsValid.1
