-- ===== src/Netpack/Filter.antt =====
-- What `filter_data_` of lua-netpack.c does to the queue: the packets that it hands out and queues are
-- those of the stream of the socket, however the stream is cut.
use sdy.Netpack.{
  NetPack, Uncomplete, Queue, hash_fd, chain_take, save_uncomplete, push_data, partial_pack,
}
use sdy.Netpack.Frames.{Pending, nothing, body, unframe, then_frames}
use sdy.Netpack.Chains.{
  pending_by, pending_in, pending_of, Fits, AllFit, copies, absent, Clean, save_uncomplete_lem,
}
use sdy.Netpack.Packets.{contents, IsRing, push_data-IsRing, contents-push_data, push_data-hash}
use sdy.Base.{
  List, [], ap, append-nil, append_assoc, arith, length, length-append, length-replicate, refl,
  replicate, subst, sym, take-append, ℕ, ◌++◌, ◌-◌, ◌<◌, ◌∙◌, ◌∷◌, ◌≡◌, ◌≢◌, ◌≤◌,
}

pub record IsQueue (q : Queue) : Type 0 where
  pub ring : IsRing q
  pub clean : Clean q

-- Nothing is pending for the socket.
abbrev pub Idle : Queue → ℕ → Type 0
Idle q fd = copies fd (q.hash (hash_fd fd)) ≡ 0

abbrev pub packs : ℕ → List (List ℕ) → List NetPack
packs fd [] = []
packs fd (t ∷ ts) = record { id = fd; buffer = t } ∷ packs fd ts

-- From `q` to `next` the packets `frames` of `fd` have come, of which the last are handed out and the
-- others are queued; what is pending for `f` has not changed.
pub record Took (q : Queue) (fd f : ℕ) (frames : List (List ℕ) × Pending) (next : Queue)
    (handed : List NetPack) : Type 0 where
  pub valid : IsQueue next
  pub pends : pending_of next fd ≡ frames.1
  pub others : pending_of next f ≡ pending_of q f
  pub packets : contents next ++ handed ≡ contents q ++ packs fd frames.0

pub Idle-nothing : (q : Queue) (fd : ℕ) → Idle q fd → pending_of q fd ≡ nothing
unfolding pending_of
Idle-nothing q fd h = ap pending_in (absent fd (q.hash (hash_fd fd)) h)

-- A packet that has only begun is saved.
pub saved :
    (q : Queue) (fd f : ℕ) (u : Uncomplete) (p : Pending)
    → IsQueue q
    → Idle q fd
    → f ≢ fd
    → u.id ≡ fd
    → Fits u
    → pending_by u u.read ≡ p
    → Took q fd f ([], p) (save_uncomplete q u) []
saved q fd f u p v z ne same fits pend =
    let i : Idle q u.id = subst (λ (k : ℕ). Idle q k) (sym same) z in
    let s = save_uncomplete_lem q u f v.clean i fits (λ e. ne (e ∙ same)) in
    record {
      valid = record {
        ring =
            unfold save_uncomplete in
            record { storage = v.ring.storage; head_in = v.ring.head_in; tail_in = v.ring.tail_in };
        clean = s.0;
      };
      pends = ap (pending_of (save_uncomplete q u)) (sym same) ∙ s.1 ∙ pend;
      others = s.2;
      packets = unfold save_uncomplete contents in refl;
    }

pub pushed-IsQueue : (q : Queue) (p : NetPack) → IsQueue q → IsQueue (push_data q p)
pushed-IsQueue q p v =
    let h = push_data-hash q p in
    record {
      ring = push_data-IsRing q p v.ring;
      clean = record {
        single = λ f i.
            subst (λ (g : ℕ → List Uncomplete). copies f (g i) ≤ 1) (sym h) (v.clean.single f i);
        fit = λ i. subst (λ (g : ℕ → List Uncomplete). AllFit (g i)) (sym h) (v.clean.fit i);
      };
    }

pushed-pending : (q : Queue) (p : NetPack) (f : ℕ) → pending_of (push_data q p) f ≡ pending_of q f
unfolding pending_of
pushed-pending q p f =
    ap (λ (g : ℕ → List Uncomplete). pending_in (chain_take f (g (hash_fd f))).0)
      (push_data-hash q p)

pub pushed-Idle : (q : Queue) (p : NetPack) (fd : ℕ) → Idle q fd → Idle (push_data q p) fd
pushed-Idle q p fd z =
    subst (λ (g : ℕ → List Uncomplete). copies fd (g (hash_fd fd)) ≡ 0) (sym (push_data-hash q p)) z

-- A packet is queued, and then those of the rest of the stream.
pub pushed :
    (q : Queue) (fd f : ℕ) (text rest : List ℕ) (next : Queue)
    → IsQueue q
    → Took (push_data q (record { id = fd; buffer = text })) fd f (unframe nothing rest) next []
    → Took q fd f (then_frames text rest) next []
pushed q fd f text rest next v t =
    let p : NetPack = record { id = fd; buffer = text } in
    record {
      valid = t.valid;
      pends = t.pends;
      others = t.others ∙ pushed-pending q p f;
      packets =
          t.packets
          ∙ ap (λ xs. xs ++ packs fd (unframe nothing rest).0) (contents-push_data q p v.ring)
          ∙ append_assoc (contents q) (p ∷ []) (packs fd (unframe nothing rest).0);
    }

-- A packet is queued at the end of the stream.
pub pushed_last :
    (q : Queue) (fd f : ℕ) (text : List ℕ)
    → IsQueue q
    → Idle q fd
    → Took q fd f ((text ∷ []), nothing) (push_data q (record { id = fd; buffer = text })) []
pushed_last q fd f text v z =
    let p : NetPack = record { id = fd; buffer = text } in
    record {
      valid = pushed-IsQueue q p v;
      pends = Idle-nothing (push_data q p) fd (pushed-Idle q p fd z);
      others = pushed-pending q p f;
      packets = append-nil (contents (push_data q p)) ∙ contents-push_data q p v.ring;
    }

pub partial_pack-pending :
    (fd size : ℕ) (bytes : List ℕ)
    → length bytes < size
    → Fits (partial_pack fd size bytes)
      × (pending_by (partial_pack fd size bytes) (partial_pack fd size bytes).read
          ≡ body size bytes)
unfolding partial_pack
partial_pack-pending fd size bytes h =
    let n = length-append bytes (replicate (size - length bytes) 0) in
    let zero_byte : ℕ = 0 in
    let m = length-replicate (size - length bytes) zero_byte in
    (
      (h, omega (arith, n, m, h)),
      ap (body size) (take-append bytes (replicate (size - length bytes) 0)),
    )
