-- ===== src/Status/Laws.antt =====
-- appointments/status.ts: the two vocabularies of statuses.
use turno_flow.Prelude.{◌≡◌, refl, ok}
use turno_flow.Schema.{AppointmentStatus}
use turno_flow.Status.{
  PublicAppointmentStatus, pending, confirmed, cancelled_by_customer, cancelled_by_business,
  completed, no_show, api_name, column_value, to_prisma_appointment_status,
  from_prisma_appointment_status,
}

from_to :
    (s : PublicAppointmentStatus)
    → (from_prisma_appointment_status (to_prisma_appointment_status s) ≡ ok s)
      × (column_value (to_prisma_appointment_status s) ≡ api_name s)
unfolding from_prisma_appointment_status to_prisma_appointment_status
from_to pending = (refl, refl)
from_to confirmed = (refl, refl)
from_to cancelled_by_customer = (refl, refl)
from_to cancelled_by_business = (refl, refl)
from_to completed = (refl, refl)
from_to no_show = (refl, refl)

to_from :
    (d : AppointmentStatus)
    → (s : PublicAppointmentStatus) × (from_prisma_appointment_status d ≡ ok s)
      × (to_prisma_appointment_status s ≡ d)
unfolding from_prisma_appointment_status to_prisma_appointment_status
to_from AppointmentStatus.pending = (pending, refl, refl)
to_from AppointmentStatus.confirmed = (confirmed, refl, refl)
to_from AppointmentStatus.cancelled_by_customer = (cancelled_by_customer, refl, refl)
to_from AppointmentStatus.cancelled_by_business = (cancelled_by_business, refl, refl)
to_from AppointmentStatus.completed = (completed, refl, refl)
to_from AppointmentStatus.no_show = (no_show, refl, refl)

-- The translation of a status for the database is the one whose column value is the status's text,
-- and translating it back gives the status. No status of the database makes the translation back
-- throw: it gives a status that is translated to it.
from_prisma-to_prisma :
    ((s : PublicAppointmentStatus)
      → (from_prisma_appointment_status (to_prisma_appointment_status s) ≡ ok s)
        × (column_value (to_prisma_appointment_status s) ≡ api_name s))
    × ((d : AppointmentStatus)
        → (s : PublicAppointmentStatus) × (from_prisma_appointment_status d ≡ ok s)
          × (to_prisma_appointment_status s ≡ d))
from_prisma-to_prisma = (from_to, to_from)
