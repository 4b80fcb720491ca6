-- ===== src/Certs/Blocks.antt =====
-- The PEM blocks that `parsePEM` goes through.
use mathlib.Core.List.{append-nil, append_assoc}
use authentik_operator.Prelude.{
  ℕ, zero, suc, ◌<◌, ◌≡◌, refl, ◌∙◌, ◌==◌, none, some, List, [], ◌∷◌, ◌++◌, arith, length, is_empty,
  if◌then◌else◌,
}
use authentik_operator.Errors.{ok, err}
use authentik_operator.Certs.{Bytes, Certificate, Block, CertCodec, take_block, pem_loop, parse_pem}

module _ (x : CertCodec) where
  -- `pem.Decode` takes at least a byte.
  abbrev pub Shrinks : Type 0
  Shrinks =
      (data' : Bytes) (b : Block) (rest : Bytes)
      → x.pem_decode data' ≡ some (b, rest)
      → length rest < length data'

  -- The blocks of the data, one after the other.
  abbrev pub Blocks : Bytes → List Block → Type 0
  Blocks data' [] = x.pem_decode data' ≡ none
  Blocks data' (b ∷ bs) = (rest : Bytes) × (x.pem_decode data' ≡ some (b, rest)) × Blocks rest bs

  -- The certificate of a block, if it holds one.
  abbrev pub certs_in : Block → List Certificate
  certs_in b =
      if b.kind == "CERTIFICATE"
      then elim (x.parse_certificate b.content) [ err _ ↦ [] | ok cert ↦ cert ∷ [] ]
      else []

  unfoldable pub certs_of : List Block → List Certificate
  certs_of [] = []
  certs_of (b ∷ bs) = certs_in b ++ certs_of bs

  unfoldable pub pem_of : List Block → Bytes
  pem_of [] = []
  pem_of (b ∷ bs) = (if is_empty (certs_in b) then [] else x.pem_encode b) ++ pem_of bs

  take_block_lem :
      (b : Block) (certs : List Certificate) (out : Bytes)
      → take_block x b (certs, out)
        ≡ (certs ++ certs_in b, out ++ (if is_empty (certs_in b) then [] else x.pem_encode b))
  unfolding take_block
  take_block_lem b certs out = ground (arith, append-nil certs, append-nil out)

  pem_loop-Blocks :
      (fuel : ℕ) (data' : Bytes) (bs : List Block) (certs : List Certificate) (out : Bytes)
      → Shrinks
      → Blocks data' bs
      → length data' < fuel
      → pem_loop x fuel data' (certs, out) ≡ (certs ++ certs_of bs, out ++ pem_of bs)
  unfolding pem_loop certs_of pem_of
  pem_loop-Blocks zero data' bs certs out shrinks h le = absurd (omega arith)
  pem_loop-Blocks (suc fuel) data' [] certs out shrinks h le = rw (pem_loop, h) (simp (append-nil))
  pem_loop-Blocks (suc fuel) data' (b ∷ bs) certs out shrinks (rest, e, h) le =
      rw (pem_loop, e, take_block_lem b certs out)
        (pem_loop-Blocks fuel rest bs (certs ++ certs_in b) _ shrinks h
            (let lt = shrinks data' b rest e in omega arith)
          ∙ simp append_assoc)

  -- Where `pem.Decode` takes at least a byte of the data each time, `parsePEM` goes through all blocks of the
  -- data: it gives the certificates of those that are certificates and parse, in their order, with
  -- these blocks encoded anew, and nothing where there is none.
  pub parse_pem-Blocks :
      (data' : Bytes) (bs : List Block)
      → Shrinks
      → Blocks data' bs
      → parse_pem x data' ≡ (if is_empty (certs_of bs) then none else some (certs_of bs, pem_of bs))
  unfolding parse_pem
  parse_pem-Blocks data' bs shrinks h =
      rw (pem_loop-Blocks (suc (length data')) data' bs [] [] shrinks h (omega arith)) refl
