-- ===== src/Chunk/Run.antt =====
-- What a loop of chunk_processor.go has done to the file when it ends: it has written the
-- encryption of the caller's bytes at their positions, all of them or up to a failed write.
use safe_disk.Base.{
  ℕ, ◌+◌, ◌-◌, ◌≤◌, ◌<◌, ◌≡◌, ◌≢◌, refl, ap, ◌∙◌, Option, none, some, List, length, take, drop,
  get_or, bit_xor, arith, length-take, get_or-take, get_or-drop,
}
use safe_disk.Storage.{Put}
use safe_disk.Storage.Types.{IoError, Storage}
use safe_disk.Storage.Effects.{
  SameBytes, Splice, SameBytes-Splice, Splice-empty, Splice-join, Splice-same,
}
use safe_disk.Cipher.Keystream.{xor_at, length-xor_at, get_or-xor_at}
use safe_disk.Chunk.{min_int64}

-- A loop that started at `start` with `total` bytes to write, the i-th of them `q i`, has written
-- `written` of them, and all if it ends without an error.
pub record Run (S : Storage) {E : Type 0} (IsReady : E → Type 0) (Extra : ℕ → Type 0) (f : S.File)
    (start total : ℕ) (q : ℕ → ℕ) (e : Option IoError) (s : E) (g : S.File) : Type 0 where
  pub written : ℕ
  pub fits : written ≤ total
  pub complete : e ≡ none → written ≡ total
  pub splice : Splice S f start written q g
  pub extra : Extra written
  pub ready : IsReady s

module _ (S : Storage) {E : Type 0} (IsReady : E → Type 0) where
  pub Run-empty :
      (Extra : ℕ → Type 0) (f : S.File) (start : ℕ) (q : ℕ → ℕ) (s : E) (e : Option IoError)
      → start ≤ S.size f
      → Extra 0
      → IsReady s
      → Run S IsReady Extra f start 0 q e s f
  Run-empty Extra f start q s e h c r = record {
    written = 0;
    fits = omega arith;
    complete = λ _. refl;
    splice = Splice-empty S f start q h;
    extra = c;
    ready = r;
  }

  -- One write that ended the loop with an error.
  pub Run-stop :
      (Extra : ℕ → Type 0) (f g : S.File) (start n total : ℕ) (q : ℕ → ℕ) (c : IoError) (s : E)
      → n ≤ total
      → Splice S f start n q g
      → Extra n
      → IsReady s
      → Run S IsReady Extra f start total q (some c) s g
  Run-stop Extra f g start n total q c s fits a x r = record {
    written = n;
    fits = fits;
    complete = λ d. cc;
    splice = a;
    extra = x;
    ready = r;
  }

  -- One round, and then a run from where it stopped.
  pub Run-step :
      (Extra : ℕ → Type 0) (f g h : S.File) (start n total : ℕ) (q : ℕ → ℕ) (e : Option IoError)
      (s : E)
      → n ≤ total
      → Splice S f start n q g
      → Run S IsReady (λ m. Extra (n + m)) g (start + n) (total - n) (λ i. q (n + i)) e s h
      → Run S IsReady Extra f start total q e s h
  Run-step Extra f g h start n total q e s fits a r = record {
    written = n + r.written;
    fits = omega (arith, r.fits);
    complete = λ d. omega (arith, r.complete d);
    splice = Splice-join S f g h start n r.written q a r.splice;
    extra = r.extra;
    ready = r.ready;
  }

-- The i-th byte of `p` in its encrypted form, when it stands at `pos`.
abbrev pub coded : (ℕ → ℕ) → ℕ → List ℕ → ℕ → ℕ
coded stream pos p i = bit_xor (get_or p i 0) (stream (pos + i))

module _ (S : Storage) (stream : ℕ → ℕ) where
  -- One write of the first `k` bytes of `rest`, encrypted.
  pub round-Splice :
      (f g : S.File) (pos k : ℕ) (rest p : List ℕ) (n : ℕ) (e : Option IoError)
      → p ≡ xor_at stream pos (take k rest)
      → k ≤ length rest
      → Put S f pos p n e g
      → (n ≤ k) × (e ≡ none → n ≡ k) × Splice S f pos n (coded stream pos rest) g
  round-Splice f g pos k rest p n e eq fits put =
      let len : length p ≡ k =
        ap length eq ∙ length-xor_at stream pos (take k rest) ∙ omega (arith, length-take k rest) in
      (
        omega (arith, put.fits),
        λ d. omega (arith, put.complete d),
        Splice-same S f g pos n (λ i. get_or p i 0) (coded stream pos rest)
            (λ i l.
              ap (λ t. get_or t i 0) eq
              ∙ get_or-xor_at stream pos (take k rest) i
                  (omega (arith, put.fits, length-take k rest))
              ∙ ap (λ b. bit_xor b (stream (pos + i)))
                  (get_or-take k rest i 0 (omega (arith, put.fits))))
            put.splice,
      )

  -- What is left after a round is coded as before.
  pub coded-drop :
      (pos k n : ℕ) (rest : List ℕ) (i : ℕ)
      → n ≡ k
      → coded stream (pos + n) (drop k rest) i ≡ coded stream pos rest (n + i)
  coded-drop pos k n rest i e =
      let d : pos + n + i ≡ pos + (n + i) = omega arith in rw (d, get_or-drop, e)

  pub Run-same :
      {E : Type 0} (IsReady : E → Type 0) (Extra Other : ℕ → Type 0) (f g : S.File)
      (start total all : ℕ) (q r : ℕ → ℕ) (e : Option IoError) (s : E)
      → total ≡ all
      → ((i : ℕ) → q i ≡ r i)
      → ((m : ℕ) → Extra m → Other m)
      → Run S IsReady Extra f start total q e s g
      → Run S IsReady Other f start all r e s g
  Run-same IsReady Extra Other f g start total all q r e s t same keep run = record {
    written = run.written;
    fits = omega (arith, run.fits);
    complete = λ d. run.complete d ∙ t;
    splice = Splice-same S f g start run.written q r (λ i l. same i) run.splice;
    extra = keep run.written run.extra;
    ready = run.ready;
  }

module _ (S : Storage) {E : Type 0} (IsReady : E → Type 0) where
  -- A run on a file whose bytes are those of `f`.
  pub Run-from :
      (Extra : ℕ → Type 0) (f f' g : S.File) (start total : ℕ) (q : ℕ → ℕ) (e : Option IoError)
      (s : E)
      → SameBytes S f f'
      → Run S IsReady Extra f' start total q e s g
      → Run S IsReady Extra f start total q e s g
  Run-from Extra f f' g start total q e s same run = record {
    written = run.written;
    fits = run.fits;
    complete = run.complete;
    splice = SameBytes-Splice S f f' g start run.written q same run.splice;
    extra = run.extra;
    ready = run.ready;
  }

pub min_int64_bounds :
    (n size : ℕ)
    → 0 < size
    → n ≢ 0
    → (0 < min_int64 n size) × (min_int64 n size ≤ n) × (min_int64 n size ≤ size)
unfolding min_int64
min_int64_bounds n size p q = ground arith

-- What an encryption function must do: the exclusive or with `stream`, below `limit`.
pub record Encrypts {E : Type 0} (IsReady : E → Type 0) (stream : ℕ → ℕ) (limit : ℕ)
    (encrypt : List ℕ → ℕ → E → List ℕ × E) : Type 0 where
  pub out :
      (p : List ℕ) (pos : ℕ) (s : E)
      → IsReady s
      → pos + length p ≤ limit
      → (encrypt p pos s).0 ≡ xor_at stream pos p
  pub ready : (p : List ℕ) (pos : ℕ) (s : E) → IsReady s → IsReady (encrypt p pos s).1
