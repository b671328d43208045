-- ===== src/Runtime/Publisher/Staged.antt =====
-- What `publish_generation` writes before it releases anything (src/runtime/publisher.cpp).
use mathlib.Core.Option.{some-injective}
use nekomata.Base.{
  ◌≡◌, refl, sym, ◌∙◌, ap, subst, List, [], ◌∷◌, ◌++◌, some, ok, ◌⊎◌, inl, inr, All, bind-eq-ok,
  ok-injective, Option-cases,
}
use nekomata.Text.{Bytes, codes}
use nekomata.Protocol.GenerationOffer.{GenerationOfferMember}
use nekomata.Runtime.Paths.{join}
use nekomata.Runtime.Stream.{FileSystem}
use nekomata.Runtime.Publisher.{
  PublishMember, FileOperation, create_directories, create_parent_directories, remove_all,
  write_required_file, rename, required_object, describe_members, stage_members,
}

-- An operation that a consumer of the stream does not see: it makes directories, or writes a file
-- below the staging directory.
abbrev pub Hides : Bytes → FileOperation → Type 0
Hides staging (create_directories path) = Unit {0}
Hides staging (create_parent_directories path) = Unit {0}
Hides staging (remove_all path) = ⊥
Hides staging (write_required_file path bytes) = (relative : Bytes) × (path ≡ join staging relative)
Hides staging (rename from to) = ⊥

-- One of the operations writes the bytes at the path.
pub Writes : Bytes → Bytes → List FileOperation → Type 0
Writes path bytes [] = ⊥
Writes path bytes (op ∷ ops) = (op ≡ write_required_file path bytes) ⊎ Writes path bytes ops

-- Each member's object is written where the manifest says, with bytes of the digest that it says.
pub Stages : FileSystem → Bytes → List GenerationOfferMember → List FileOperation → Type 0
Stages fs staging [] ops = Unit {0}
Stages fs staging (m ∷ ms) ops =
    ((bytes : Bytes) × (fs.sha256_hex bytes ≡ m.sha256)
      × Writes (join staging m.object_path) bytes ops)
    × Stages fs staging ms ops

Writes-append :
    (path bytes : Bytes) (before ops after : List FileOperation)
    → Writes path bytes ops
    → Writes path bytes (before ++ (ops ++ after))
unfolding Writes
Writes-append path bytes [] [] after w = absurd w
Writes-append path bytes [] (op ∷ ops) after (inl here) = inl here
Writes-append path bytes [] (op ∷ ops) after (inr later) =
    inr (Writes-append path bytes [] ops after later)
Writes-append path bytes (b ∷ before) ops after w =
    inr (Writes-append path bytes before ops after w)

pub Stages-append :
    (fs : FileSystem) (staging : Bytes) (ms : List GenerationOfferMember)
    (before ops after : List FileOperation)
    → Stages fs staging ms ops
    → Stages fs staging ms (before ++ (ops ++ after))
unfolding Stages
Stages-append fs staging [] before ops after h = tt
Stages-append fs staging (m ∷ ms) before ops after ((bytes, digest, w), h) = (
  (bytes, digest, Writes-append (join staging m.object_path) bytes before ops after w),
  Stages-append fs staging ms before ops after h,
)

required_object-present :
    (fs : FileSystem) (path problem : Bytes) {bytes : Bytes}
    → required_object fs path problem ≡ ok bytes
    → fs.read_file_if_present path ≡ some bytes
unfolding required_object
required_object-present fs path problem e = elim (Option-cases (fs.read_file_if_present path)) [
  | inl missing ↦ absurd (cc (rw (missing, required_object) at e))
  | inr (bytes, present) ↦ present ∙ ap some (ok-injective (rw (present, required_object) at e))
]

append-nil_right : (ops : List FileOperation) → ops ++ [] ≡ ops
append-nil_right [] = refl
append-nil_right (op ∷ ops) = ap (◌∷◌ op) (append-nil_right ops)

pub stage_members-Stages :
    (fs : FileSystem) (staging : Bytes) (ms : List PublishMember)
    {members : List GenerationOfferMember} {ops : List FileOperation}
    → describe_members fs ms ≡ ok members
    → stage_members fs staging ms ≡ ok ops
    → Stages fs staging members ops × All (Hides staging) ops
unfolding describe_members stage_members Stages Writes
stage_members-Stages fs staging [] d e = rw (← ok-injective d) rw (← ok-injective e) (tt, tt)
stage_members-Stages fs staging (m ∷ ms) {members} {ops} d e =
    let (bytes, read, d1) = bind-eq-ok (required_object fs m.object_file _) _ d in
    let (described, later, d2) = bind-eq-ok (describe_members fs ms) _ d1 in
    let (copied, again, e1) = bind-eq-ok (required_object fs m.object_file _) _ e in
    let (staged, rest, e2) = bind-eq-ok (stage_members fs staging ms) _ e1 in
    let (stages, hides) = stage_members-Stages fs staging ms later rest in
    let object = join staging (codes "objects/" ++ m.member ++ codes ".o") in
    let same : bytes ≡ copied = some-injective bytes copied (
      sym (required_object-present fs m.object_file _ read)
      ∙ required_object-present fs m.object_file _ again) in
    let first : List FileOperation =
      create_parent_directories object ∷ write_required_file object copied ∷ [] in
    subst (λ ops. Stages fs staging members ops × All (Hides staging) ops) (ok-injective e2)
      (subst
        (λ members.
          Stages fs staging members (first ++ staged) × All (Hides staging) (first ++ staged))
        (ok-injective d2)
        (
          (
            (copied, ap fs.sha256_hex (sym same), inr (inl refl)),
            subst (λ ops. Stages fs staging described (first ++ ops)) (append-nil_right staged)
                (Stages-append fs staging described first staged [] stages),
          ),
          (tt, ((codes "objects/" ++ m.member ++ codes ".o", refl), hides)),
        ))
