-- ===== src/Policy/Patterns.antt =====
-- The patterns of rrpp_bridge/policy.py.
use rrpp_agent_bridge.Common.{String, List, [], ◌∷◌}
use rrpp_agent_bridge.Common.Regex.{
  Regex, nothing, alt, boundary, range, star, opt, lit, between, up_to, ◌then◌, ◌or◌,
}

-- (?:a|b|...) for literal texts.
unfoldable pub one_of : List String → Regex
one_of [] = nothing
one_of (s ∷ []) = lit s
one_of (s ∷ t ∷ l) = alt (lit s) (one_of (t ∷ l))

unfoldable pub restricted_operation_patterns : List Regex
restricted_operation_patterns =
    (boundary then lit "reserva m" then boundary)
    ∷ (boundary then lit "reservame" then boundary)
    ∷ (boundary then lit "book me" then boundary)
    ∷ (boundary then lit "make " then opt (lit "me ") then lit "a reservation" then boundary)
    ∷ (boundary
        then lit "confirma"
        then opt (one_of (" m" ∷ "me" ∷ []))
        then lit " "
        then opt (one_of ("la " ∷ "mi " ∷ "my " ∷ []))
        then (one_of ("reserva" ∷ "reservation" ∷ "taula" ∷ "mesa" ∷ []))
        then boundary)
    ∷ (boundary
        then lit "confirm "
        then opt (one_of ("my " ∷ "the " ∷ []))
        then (one_of ("reservation" ∷ "vip table" ∷ "table" ∷ []))
        then boundary)
    ∷ (boundary
        then lit "posa m "
        then (one_of ("a" ∷ "en" ∷ []))
        then lit " "
        then opt (lit "la ")
        then lit "llista"
        then boundary)
    ∷ (boundary then lit "ponme en " then opt (lit "la ") then lit "lista" then boundary)
    ∷ (boundary
        then lit "add me to "
        then opt (lit "the ")
        then (one_of ("guest list" ∷ "guestlist" ∷ []))
        then boundary)
    ∷ (boundary
        then (one_of ("fes" ∷ "processa" ∷ "tramita" ∷ []))
        then opt (one_of (" me" ∷ " m" ∷ []))
        then lit " "
        then opt (one_of ("un " ∷ "una " ∷ "el " ∷ "la " ∷ []))
        then (one_of ("refund" ∷ "reembolso" ∷ "devolucio" ∷ "devolucion" ∷ []))
        then boundary)
    ∷ (boundary then (one_of ("devuelveme" ∷ "reembolsame" ∷ "refund me" ∷ [])) then boundary)
    ∷ (boundary
        then (lit "cobra m"
            or lit "cobrame"
            or lit "cobame"
            or lit "charge me"
            or (lit "process " then opt (lit "my ") then lit "payment"))
        then boundary)
    ∷ []

unfoldable pub credential_patterns : List Regex
credential_patterns =
    (boundary
      then (one_of ("el meu" ∷ "la meva" ∷ "mi" ∷ "mis" ∷ "my" ∷ []))
      then lit " "
      then (one_of
          ("dni" ∷ "passaport" ∷ "pasaporte" ∷ "passport" ∷ "targeta" ∷ "tarjeta" ∷ "card" ∷ []))
      then boundary)
    ∷ (boundary
        then (one_of ("numero" ∷ "number" ∷ []))
        then lit " "
        then opt (lit "de " or lit "del " or (lit "of " then opt (lit "the ")))
        then (one_of ("targeta" ∷ "tarjeta" ∷ "card" ∷ []))
        then boundary)
    ∷ (boundary then (one_of ("cvv" ∷ "pin" ∷ [])) then boundary)
    ∷ []

unfoldable pub prohibited_outbound_patterns : List Regex
prohibited_outbound_patterns =
    (boundary
      then (one_of ("reserva" ∷ "reservation" ∷ "taula" ∷ "mesa" ∷ []))
      then lit " "
      then opt (one_of ("esta " ∷ "is " ∷ "has been " ∷ []))
      then lit "confirm")
    ∷ (boundary
        then (one_of ("he" ∷ "hem" ∷ "we have" ∷ "i have" ∷ []))
        then lit " "
        then opt (one_of ("fet " ∷ "made " ∷ "confirmat " ∷ "confirmed " ∷ []))
        then opt (one_of ("la " ∷ "a " ∷ "the " ∷ []))
        then (one_of ("reserva" ∷ "reservation" ∷ []))
        then boundary)
    ∷ (boundary
        then (one_of ("estas" ∷ "ets" ∷ "you are" ∷ []))
        then lit " "
        then opt (one_of ("a " ∷ "en " ∷ "on " ∷ []))
        then opt (one_of ("la " ∷ "the " ∷ []))
        then (one_of ("llista" ∷ "lista" ∷ "guest list" ∷ "guestlist" ∷ []))
        then boundary)
    ∷ (boundary
        then (one_of ("pagament" ∷ "pago" ∷ "payment" ∷ []))
        then lit " "
        then opt (one_of ("esta " ∷ "is " ∷ "has been " ∷ []))
        then (one_of (
            "confirmat" ∷ "confirmado" ∷ "confirmed" ∷ "processat" ∷ "procesado" ∷ "processed"
            ∷ "fet" ∷ "hecho" ∷ "done" ∷ []))
        then boundary)
    ∷ (boundary
        then (one_of ("refund" ∷ "reembolso" ∷ "devolucio" ∷ "devolucion" ∷ []))
        then lit " "
        then opt (one_of ("esta " ∷ "is " ∷ "has been " ∷ []))
        then (one_of (
            "confirmat" ∷ "confirmado" ∷ "confirmed" ∷ "processat" ∷ "procesado" ∷ "processed"
            ∷ "issued" ∷ "fet" ∷ "hecho" ∷ "done" ∷ []))
        then boundary)
    ∷ (boundary
        then (one_of ("envia" ∷ "enviam" ∷ "facilita" ∷ "dona" ∷ "send" ∷ "provide" ∷ []))
        then opt (one_of (" me" ∷ " m" ∷ []))
        then star (
            lit " "
            then (one_of (
                "el" ∷ "la" ∷ "els" ∷ "les" ∷ "un" ∷ "una" ∷ "teu" ∷ "teva" ∷ "meu" ∷ "meva" ∷ "tu"
                ∷ "tus" ∷ "mi" ∷ "mis" ∷ "your" ∷ "the" ∷ [])))
        then lit " "
        then (one_of (
            "dni" ∷ "passaport" ∷ "pasaporte" ∷ "passport" ∷ "targeta" ∷ "tarjeta" ∷ "card" ∷ "cvv"
            ∷ "pin" ∷ []))
        then boundary)
    ∷ []

-- [a-z]{2,3}(?:-[a-z0-9]{2,8})?
unfoldable pub language_pattern : Regex
language_pattern =
    between 2 3 (range b'a' b'z')
    then opt (lit "-" then between 2 8 (range b'a' b'z' or range b'0' b'9'))

-- [A-Za-z0-9][A-Za-z0-9._-]{0,127}
unfoldable pub source_pattern : Regex
source_pattern =
    (range b'A' b'Z' or range b'a' b'z' or range b'0' b'9')
    then up_to 127
        (range b'A' b'Z' or range b'a' b'z' or range b'0' b'9' or lit "." or lit "_" or lit "-")
