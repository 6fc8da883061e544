-- ===== src/Types/Audio/Vorbis/Tests.antt =====
-- `vorbis::load` with a decoder that reads one channel from a list, at most two samples at a time.
use tklb.Base.{
  ℕ, zero, suc, ◌+◌, ◌*◌, ◌≤◌, ◌<◌, ◌≡◌, refl, ap, ◌∙◌, true, false, List, [], ◌∷◌, length,
  length-take, length-drop, length-set, take, drop, set, get_elem?, get_elem?-take, get_elem?-drop,
  get_elem?-set_self, get_elem?-set_ne, Option, some, min, ok, arith,
}
use mathlib.Core.Option.{some-injective, none-ne-some}
use tklb.Types.HeapBuffer.{closest_chunk_size}
use tklb.Types.Audio.AudioBuffer.{AudioBuffer, size}
use tklb.Types.Audio.AudioBuffer.Cells.{IsValid}
use tklb.Types.Audio.Vorbis.Floats.{LoadsSamples, load_vorbis_float-LoadsSamples}
use tklb.Types.Audio.Vorbis.Frames.{LoadsFrames, load_vorbis-LoadsFrames}
use tklb.Types.Audio.Vorbis.Stb.{VorbisDecoder, DecodesFrames, DecodesSamples}
use tklb.Types.Audio.Vorbis.{load_vorbis, load_vorbis_float}

abbrev opened_stream : List ℕ → ℕ × (ℕ × List ℕ)
opened_stream [] = (1, (0, []))
opened_stream (n ∷ samples) = (0, (n, samples))

abbrev put_all : List ℕ → ℕ → List ℕ → List ℕ
put_all [] p mem = mem
put_all (x ∷ xs) p mem = put_all xs (p + 1) (set mem p x)

abbrev put_first : List ℕ → List ℕ → List ℕ → List ℕ
put_first [] xs mem = mem
put_first (p ∷ ps) xs mem = put_all xs p mem

abbrev mono_stream : VorbisDecoder ℕ
mono_stream = record {
  Vorbis = ℕ × List ℕ;
  open_memory = opened_stream;
  channels = λ v. 1;
  sample_rate = λ v. 44100;
  stream_length = λ v. v.0;
  get_frame = λ v. (
    min 2 (length v.1),
    1,
    take (min 2 (length v.1)) v.1 ∷ [],
    (v.0, drop (min 2 (length v.1)) v.1),
  );
  get_samples = λ chan pointers n mem v. (min n (length v.1), put_first pointers (take n v.1) mem);
}

abbrev sample_of : ℕ × List ℕ → ℕ → ℕ → Option ℕ
sample_of v c i = get_elem? v.1 i

mono_frames : DecodesFrames mono_stream
mono_frames = record {
  left = λ v. length v.1;
  sample = sample_of;
  some_left = λ v pos. omega arith;
  no_more = λ v. omega arith;
  all_channels = λ v. refl;
  arrays = λ v. record {
    array = λ c. take (min 2 (length v.1)) v.1;
    found = λ c lt. let e : c ≡ 0 = omega arith in rw e refl;
    room = λ c lt. omega (arith, length-take (min 2 (length v.1)) v.1);
  };
  samples = λ v c i lt li.
      let e : c ≡ 0 = omega arith in rw e (get_elem?-take (min 2 (length v.1)) i v.1 li);
  left_behind = λ v. length-drop (min 2 (length v.1)) v.1;
  behind = λ v c i. get_elem?-drop (min 2 (length v.1)) i v.1;
  same_channels = λ v. refl;
}

length-put_all : (xs : List ℕ) (p : ℕ) (mem : List ℕ) → length (put_all xs p mem) ≡ length mem
length-put_all [] p mem = refl
length-put_all (x ∷ xs) p mem = length-put_all xs (p + 1) (set mem p x) ∙ length-set mem p x

length-put_first : (ps xs mem : List ℕ) → length (put_first ps xs mem) ≡ length mem
length-put_first [] xs mem = refl
length-put_first (p ∷ ps) xs mem = length-put_all xs p mem

get_elem?-put_all_before :
    (xs : List ℕ) (p i : ℕ) (mem : List ℕ)
    → i < p
    → get_elem? (put_all xs p mem) i ≡ get_elem? mem i
get_elem?-put_all_before [] p i mem lt = refl
get_elem?-put_all_before (x ∷ xs) p i mem lt =
    get_elem?-put_all_before xs (p + 1) i (set mem p x) (omega arith)
    ∙ get_elem?-set_ne mem p i x (λ e. omega arith)

get_elem?-put_all :
    (xs : List ℕ) (p i : ℕ) (mem : List ℕ)
    → i < length xs
    → p + length xs ≤ length mem
    → get_elem? (put_all xs p mem) (p + i) ≡ get_elem? xs i
get_elem?-put_all [] p i mem lt room = absurd (omega arith)
get_elem?-put_all (x ∷ xs) p zero mem lt room =
    ap (get_elem? (put_all xs (p + 1) (set mem p x))) (plus_zero p)
    ∙ get_elem?-put_all_before xs (p + 1) p (set mem p x) (omega arith)
    ∙ get_elem?-set_self mem p x (omega arith)
  where
    plus_zero : (p : ℕ) → p + 0 ≡ p
    plus_zero p = omega arith
get_elem?-put_all (x ∷ xs) p (suc i) mem lt room =
    ap (get_elem? (put_all xs (p + 1) (set mem p x))) (plus_suc p i)
    ∙ get_elem?-put_all xs (p + 1) i (set mem p x) (omega arith) (omega (arith, length-set mem p x))
  where
    plus_suc : (p i : ℕ) → p + suc i ≡ p + 1 + i
    plus_suc p i = omega arith

get_elem?-put_first :
    (ps xs mem : List ℕ) (c p i n : ℕ)
    → c < 1
    → get_elem? ps c ≡ some p
    → i < min n (length xs)
    → p + n ≤ length mem
    → get_elem? (put_first ps (take n xs) mem) (p + i) ≡ get_elem? xs i
get_elem?-put_first ps xs mem zero p i n lt e li room = by_pointers ps e
  where
    by_pointers :
        (qs : List ℕ)
        → get_elem? qs 0 ≡ some p
        → get_elem? (put_first qs (take n xs) mem) (p + i) ≡ get_elem? xs i
    by_pointers [] e = absurd (none-ne-some p e)
    by_pointers (q ∷ qs) e =
        let same : q ≡ p = some-injective q p e in
        rw same (
          get_elem?-put_all (take n xs) p i mem (omega (arith, length-take n xs))
            (omega (arith, length-take n xs))
          ∙ get_elem?-take n i xs (omega arith))
get_elem?-put_first ps xs mem (suc c) p i n lt e li room = absurd (omega arith)

mono_samples : DecodesSamples mono_stream
mono_samples = record {
  left = λ v. length v.1;
  sample = sample_of;
  got = λ chan n pointers mem v. refl;
  same_length = λ chan n pointers mem v. length-put_first pointers (take n v.1) mem;
  written = λ n pointers mem v apart room c p i lt e li.
      get_elem?-put_first pointers v.1 mem c p i n lt e li (room c p lt e);
}

abbrev doubled : ℕ → ℕ
doubled x = 2 * x

abbrev vacant_buffer : AudioBuffer ℕ
vacant_buffer = record { samples = []; valid_size = 0; channels = 0 }

vacant_buffer-IsValid : IsValid vacant_buffer
unfolding size
vacant_buffer-IsValid = record { total = refl; fits = omega arith; valid = omega arith }

load_vorbis-LoadsFrames_example :
    LoadsFrames mono_stream doubled mono_frames
      (3, 7 ∷ 8 ∷ 9 ∷ [])
      (load_vorbis mono_stream doubled (λ n. true) 0 1 4 (3 ∷ 7 ∷ 8 ∷ 9 ∷ []) vacant_buffer 0)
unfolding closest_chunk_size mono_frames
load_vorbis-LoadsFrames_example =
    load_vorbis-LoadsFrames mono_stream doubled mono_frames (λ n. true) 0 1 4 (3 ∷ 7 ∷ 8 ∷ 9 ∷ [])
      vacant_buffer 0 (3, 7 ∷ 8 ∷ 9 ∷ []) (λ n. refl) vacant_buffer-IsValid refl refl (omega arith)
      (omega arith) (omega arith) (omega arith) (omega arith) (omega arith)

load_vorbis_float-LoadsSamples_example :
    LoadsSamples mono_stream mono_samples
      (3, 7 ∷ 8 ∷ [])
      (load_vorbis_float mono_stream (λ n. true) 0 1 0 (3 ∷ 7 ∷ 8 ∷ []) vacant_buffer 0)
unfolding closest_chunk_size
load_vorbis_float-LoadsSamples_example =
    load_vorbis_float-LoadsSamples mono_stream mono_samples (λ n. true) 0 1 0 (3 ∷ 7 ∷ 8 ∷ [])
      vacant_buffer 0 (3, 7 ∷ 8 ∷ []) (λ n. refl) vacant_buffer-IsValid refl (omega arith)
      (omega arith) (omega arith) (omega arith)

-- A file that cannot be opened.
load_vorbis_example :
    load_vorbis mono_stream doubled (λ n. true) 0 1 4 [] vacant_buffer 48000
    ≡ ok (
        some
          (record { success = false; buffer = vacant_buffer; sample_rate = 48000; closed = true }))
unfolding load_vorbis
load_vorbis_example = refl
