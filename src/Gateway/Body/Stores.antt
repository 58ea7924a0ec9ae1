-- ===== src/Gateway/Body/Stores.antt =====
-- The loops of `translate_smtp_to_mx2` (src/gateway.py) and what the content store holds: the
-- blocks and the attachments of a message do not depend on it.
use mx2_sandbox.Base.{◌≡◌, ◌∙◌, ap, sym, refl, Str, ℕ, List, [], ◌∷◌, arith, Bool-cases, inl, inr}
use mx2_sandbox.Mail.{Part, Message}
use mx2_sandbox.Runtime.{Runtime}
use mx2_sandbox.Cas.{Store, write}
use mx2_sandbox.Gateway.Body.{
  Parts, process_text_part, process_attachment, is_attachment, has_no_disposition, process_part,
  process_parts, process_single, process_message, with_fallback, html_blocks,
}

-- the accumulators without the store
abbrev pub without_store : Parts → Parts
without_store s = record s { store = [] }

module _ (R : Runtime) (uuid : ℕ → Str) where
  process_text_part-without_store :
      (part : Part) (s : Parts)
      → without_store (process_text_part R uuid part (without_store s))
        ≡ without_store (process_text_part R uuid part s)
  unfolding process_text_part
  process_text_part-without_store part s = ground arith

  process_attachment-without_store :
      (part : Part) (s : Parts)
      → without_store (process_attachment R uuid part (without_store s))
        ≡ without_store (process_attachment R uuid part s)
  unfolding process_attachment write
  process_attachment-without_store part s = refl

  process_part-without_store :
      (part : Part) (s : Parts)
      → without_store (process_part R uuid part (without_store s))
        ≡ without_store (process_part R uuid part s)
  unfolding process_part
  process_part-without_store part s = elim (Bool-cases (is_attachment R uuid part)) [
    | inl e ↦ rw e (process_attachment-without_store part s)
    | inr e ↦ rw e (elim (Bool-cases (has_no_disposition R uuid part)) [
      | inl e' ↦ rw e' (process_text_part-without_store part s)
      | inr e' ↦ rw e' refl
    ])
  ]

  process_parts-without_store :
      (parts : List Part) (s t : Parts)
      → without_store s ≡ without_store t
      → without_store (process_parts R uuid parts s) ≡ without_store (process_parts R uuid parts t)
  unfolding process_parts
  process_parts-without_store [] s t e = e
  process_parts-without_store (part ∷ parts) s t e =
      process_parts-without_store parts (process_part R uuid part s) (process_part R uuid part t) (
        sym (process_part-without_store part s)
        ∙ ap (λ u. without_store (process_part R uuid part u)) e
        ∙ process_part-without_store part t)

  process_single-without_store :
      (part : Part) (s : Parts)
      → without_store (process_single R uuid part (without_store s))
        ≡ without_store (process_single R uuid part s)
  unfolding process_single
  process_single-without_store part s = elim (Bool-cases (is_attachment R uuid part)) [
    | inl e ↦ rw e (process_attachment-without_store part s)
    | inr e ↦ rw e (process_text_part-without_store part s)
  ]

  abbrev with_html : List Part → Parts → Parts
  with_html walk s = record s { blocks = with_fallback R uuid s.blocks (html_blocks R uuid walk) }

  pub process_message-without_store :
      (msg : Message) (c : Store)
      → without_store (process_message R uuid msg c) ≡ without_store (process_message R uuid msg [])
  unfolding process_message
  process_message-without_store msg c =
      let start : Parts = record { blocks = []; attachments = []; store = c; drawn = 0 } in
      let fresh_start : Parts = record { blocks = []; attachments = []; store = []; drawn = 0 } in
      elim (Bool-cases msg.is_multipart) [
        | inl e ↦
            rw e (
              ap (with_html msg.walk) (process_parts-without_store msg.walk start fresh_start refl))
        | inr e ↦
            rw e
              (ap (with_html (msg.root ∷ [])) (sym (process_single-without_store msg.root start)))
      ]
