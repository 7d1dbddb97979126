-- ===== src/Policy/Words.antt =====
-- The word lists of rrpp_bridge/policy.py.
use rrpp_agent_bridge.Common.{ℕ, String, List, [], ◌∷◌}

abbrev pub max_reply_characters : ℕ
max_reply_characters = 1000

abbrev pub max_references : ℕ
max_references = 10

abbrev pub known_actions : List String
known_actions =
    "send_reply" ∷ "human_reply" ∷ "draft_reply" ∷ "escalate_to_owner" ∷ "no_action" ∷ []

abbrev pub safe_reply_reasons : List String
safe_reply_reasons = "catalog_answer" ∷ "greeting" ∷ "thanks" ∷ "farewell" ∷ []

abbrev pub reference_types : List String
reference_types = "venue" ∷ "event" ∷ "offer" ∷ []

abbrev pub agent_payload_fields : List String
agent_payload_fields =
    "text" ∷ "language" ∷ "reason_code" ∷ "agent_action" ∷ "referenced_items" ∷ "structured"
    ∷ "source" ∷ []

abbrev pub controlled_topic_words : List String
controlled_topic_words =
    "vip" ∷ "taula" ∷ "taules" ∷ "mesa" ∷ "mesas" ∷ "reserva" ∷ "reservar" ∷ "reserves" ∷ "reservas"
    ∷ "reservacio" ∷ "reservacions" ∷ "reservation" ∷ "reservations" ∷ "guestlist" ∷ "llista"
    ∷ "llistes" ∷ "lista" ∷ "listas" ∷ "pagament" ∷ "pagaments" ∷ "pago" ∷ "pagos" ∷ "payment"
    ∷ "payments" ∷ "refund" ∷ "refunds" ∷ "reembolso" ∷ "reembolsos" ∷ "devolucio" ∷ "devolucions"
    ∷ "devolucion" ∷ "devoluciones" ∷ "queixa" ∷ "queixes" ∷ "queja" ∷ "quejas" ∷ "complaint"
    ∷ "complaints" ∷ "denuncia" ∷ "denuncias" ∷ "assetjament" ∷ "assetjaments" ∷ "acoso" ∷ "acosos"
    ∷ "harassment" ∷ "seguretat" ∷ "seguridad" ∷ "safety" ∷ "accident" ∷ "accidents" ∷ "dni"
    ∷ "passaport" ∷ "passaports" ∷ "pasaporte" ∷ "pasaportes" ∷ "passport" ∷ "passports" ∷ "targeta"
    ∷ "targetes" ∷ "tarjeta" ∷ "tarjetas" ∷ "card" ∷ "cards" ∷ []

abbrev pub controlled_topic_phrases : List String
controlled_topic_phrases =
    "guest list" ∷ "llista de convidats" ∷ "lista de invitados" ∷ "credit card"
    ∷ "targeta de credit" ∷ "tarjeta de credito" ∷ []

abbrev pub incident_words : List String
incident_words =
    "queixa" ∷ "queixes" ∷ "queja" ∷ "quejas" ∷ "complaint" ∷ "complaints" ∷ "denuncia"
    ∷ "denuncias" ∷ "assetjament" ∷ "assetjaments" ∷ "acoso" ∷ "acosos" ∷ "harassment" ∷ "accident"
    ∷ "accidente" ∷ "accidents" ∷ []
