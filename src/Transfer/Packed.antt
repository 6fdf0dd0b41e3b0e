-- ===== src/Transfer/Packed.antt =====
-- What `read` packs, the receiver unpacks.
use rustdesk_server_demo.Prelude.{
  ℕ, zero, suc, ◌+◌, ◌≤◌, ◌<◌, ◌≡◌, refl, sym, ap, ◌∙◌, Bool, true, false, some, String, List, [],
  ◌∷◌, if◌then◌else◌, length, take, drop, arith,
}
use rustdesk_server_demo.Prelude.Int.{ℤ}
use rustdesk_server_demo.Prelude.Strings.{is_empty}
use rustdesk_server_demo.Compress.{Zstd, compress, decompress}
use rustdesk_server_demo.Compress.RoundTrip.{decompress-compress}
use rustdesk_server_demo.Disk.{Disk}
use rustdesk_server_demo.Transfer.{File, TransferJob, join}
use rustdesk_server_demo.Transfer.Paths.{path_join}
use rustdesk_server_demo.Transfer.Read.{buf_size, compress_level, unread, pack}
use rustdesk_server_demo.Transfer.Write.{payload}

-- zstd compresses every block that `read` can fill.
abbrev pub Compresses : Zstd → Type 0
Compresses zstd =
    (buf : List ℕ)
    → length buf ≤ buf_size
    → (res : List ℕ) × (zstd.compress_block buf compress_level ≡ some res)

pub take-eq-nil : (n : ℕ) (xs : List ℕ) → 0 < n → take n xs ≡ [] → xs ≡ []
take-eq-nil zero xs h e = absurd (omega arith)
take-eq-nil (suc n) [] h e = refl
take-eq-nil (suc n) (x ∷ xs) h e = absurd (omega (arith, ap length e))

drop-nil : (n : ℕ) → ◌≡◌ {A = List ℕ} (drop n []) []
drop-nil zero = refl
drop-nil (suc n) = refl

drop-drop : (n m : ℕ) (xs : List ℕ) → drop (n + m) xs ≡ drop m (drop n xs)
drop-drop zero m xs = ap (λ k. drop k xs) (omega arith)
drop-drop (suc n) m [] = drop-nil (suc n + m) ∙ sym (drop-nil m)
drop-drop (suc n) m (x ∷ xs) =
    let e : suc n + m ≡ suc (n + m) = omega arith in rw e (drop-drop n m xs)

pub drop_taken : (n : ℕ) (xs : List ℕ) → drop (length (take n xs)) xs ≡ drop n xs
drop_taken zero xs = refl
drop_taken (suc n) [] = refl
drop_taken (suc n) (x ∷ xs) = drop_taken n xs

pub unread-advance :
    (disk : Disk) (f : File) (n : ℕ)
    → unread disk (record f { offset = f.offset + n }) ≡ drop n (unread disk f)
unfolding unread
unread-advance disk f n = drop-drop f.offset n _

pub join_path :
    (job start : TransferJob) (name : String)
    → job.path ≡ start.path
    → join job name ≡ join start name
unfolding join
join_path job start name same = ap (λ p. if is_empty name then p else path_join p name) same

module _ (zstd : Zstd) (works : Compresses zstd) where
  -- What a packed block stands for is what was packed.
  pub payload-pack :
      (id num : ℤ) (name : String) (buf : List ℕ)
      → length buf ≤ buf_size
      → payload zstd true (record {
        id = id;
        file_num = num;
        bytes = (pack zstd true name buf).0;
        compressed = (pack zstd true name buf).1;
      })
        ≡ buf
  unfolding payload pack
  payload-pack id num name buf fits = by_test _
    where
      tmp : List ℕ
      tmp = compress zstd true buf compress_level

      back : decompress zstd true tmp ≡ buf
      back =
          let (res, ok) = works buf fits in
          decompress-compress zstd buf res compress_level ok ∙ ground arith

      unpacked : List ℕ × Bool → List ℕ
      unpacked p = if p.1 then decompress zstd true p.0 else p.0

      by_test : (b : Bool) → unpacked (if b then (tmp, true) else (buf, false)) ≡ buf
      by_test true = back
      by_test false = refl
